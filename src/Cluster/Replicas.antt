-- ===== src/Cluster/Replicas.antt =====
-- What the replicated state holds.
use go_serve.Common.{
  ◌≡◌, refl, ap, ◌∙◌, inl, inr, ◌&&◌, Option, none, some, List, [], ◌∷◌, if◌then◌else◌, Str, bytes,
  str_eq, Bool-cases, Option-cases,
}
use go_serve.Common.Dict.{str_Eq, lookup, lookup-insert}
use go_serve.Cluster.{Assignment, Command, Assignments, apply, apply_all}

module _ (json_unmarshal : Str → Option Command) where
  -- What one entry assigns to a key.
  abbrev pub assigns : Str → Option Command → Option Assignment
  assigns key none = none
  assigns key (some command) =
      if str_eq command.kind (bytes "assign") && str_eq command.assignment.client_key key
      then some command.assignment
      else none

  -- The last assignment to a key in a log, or the one before it.
  pub last_write : Str → Option Assignment → List Str → Option Assignment
  last_write key before [] = before
  last_write key before (entry ∷ log) =
      last_write key (elim (assigns key (json_unmarshal entry)) [ none ↦ before | some a ↦ some a ])
        log

  lookup-apply :
      (key entry : Str) (assignments : Assignments)
      → lookup key (apply json_unmarshal assignments entry)
        ≡ (elim (assigns key (json_unmarshal entry)) [
          | none ↦ lookup key assignments
          | some a ↦ some a
        ])
  unfolding apply
  lookup-apply key entry assignments = elim (Option-cases (json_unmarshal entry)) [
    | inl e ↦ rw (e, apply) refl
    | inr (command, e) ↦
        let put = lookup-insert command.assignment.client_key key command.assignment assignments in
        elim (Bool-cases (str_eq command.kind (bytes "assign"))) [
          | inr other ↦ simp (e, other, apply)
          | inl is_assign ↦ elim (Bool-cases (str_eq command.assignment.client_key key)) [
            | inl same ↦ simp (e, is_assign, same, apply) (put ∙ rw same refl)
            | inr differs ↦ simp (e, is_assign, differs, apply) (put ∙ rw differs refl)
          ]
        ]
  ]

  -- After a log, each key has the last assignment that the log made to it, or else the one that it had
  -- before: nodes that applied one log agree on every client.
  pub lookup-apply_all :
      (key : Str) (assignments : Assignments) (log : List Str)
      → lookup key (apply_all json_unmarshal assignments log)
        ≡ last_write key (lookup key assignments) log
  unfolding apply_all last_write
  lookup-apply_all key assignments [] = refl
  lookup-apply_all key assignments (entry ∷ log) =
      lookup-apply_all key (apply json_unmarshal assignments entry) log
      ∙ ap (λ before. last_write key before log) (lookup-apply key entry assignments)
