-- ===== src/Cluster/Snapshots/Replayed.antt =====
-- A replica that starts from a snapshot.
use go_serve.Common.{
  Bool, All, bytes, str_eq, Bool-cases, ◌≡◌, refl, sym, ap, ◌∙◌, inl, inr, true, Option, some, List,
  [], ◌∷◌, ◌++◌, Str, Option-cases,
}
use go_serve.Common.Dict.{str_Eq, lookup, insert}
use go_serve.Cluster.{Assignment, Command, Assignments, apply, apply_all}
use go_serve.Cluster.Replicas.{last_write, lookup-apply_all}
use go_serve.Cluster.Snapshots.{snapshot, kept, persist, restore}

apply_all-append :
    (json_unmarshal : Str → Option Command) (assignments : Assignments) (xs ys : List Str)
    → apply_all json_unmarshal assignments (xs ++ ys)
      ≡ apply_all json_unmarshal (apply_all json_unmarshal assignments xs) ys
unfolding apply_all
apply_all-append json_unmarshal assignments [] ys = refl
apply_all-append json_unmarshal assignments (x ∷ xs) ys =
    apply_all-append json_unmarshal (apply json_unmarshal assignments x) xs ys

-- The texts of an assignment are valid UTF-8; `valid_string` is `utf8.ValidString`.
abbrev pub IsText : (Str → Bool) → Assignment → Type 0
IsText valid_string a =
    (valid_string a.client_key ≡ true)
    × (valid_string a.node_id ≡ true)
    × (valid_string a.peer_url ≡ true)

abbrev pub AreTexts : (Str → Bool) → Assignments → Type 0
AreTexts valid_string =
    All (λ (q : Str × Assignment). (valid_string q.0 ≡ true) × IsText valid_string q.1)

-- JSON reads only valid texts, as it replaces what is not UTF-8.
abbrev pub ReadsTexts : (Str → Bool) → (Str → Option Command) → Type 0
ReadsTexts valid_string json_unmarshal =
    (entry : Str) (command : Command)
    → json_unmarshal entry ≡ some command
    → IsText valid_string command.assignment

-- What the JSON codec of the map keeps of a map of valid texts: the text that it makes is read as a
-- map with the same entries, in whatever order.
abbrev pub KeepsEntries :
    (Str → Bool) → (Assignments → Option Str) → (Str → Option Assignments) → Type 0
KeepsEntries valid_string encode decode =
    (m : Assignments) (text : Str)
    → AreTexts valid_string m
    → encode m ≡ some text
    → (m' : Assignments) × (decode text ≡ some m') × ((key : Str) → lookup key m' ≡ lookup key m)

kept_text :
    (encode : Assignments → Option Str) (decode : Str → Option Assignments) (m : Assignments)
    (text : Str)
    → persist encode decode m ≡ kept text
    → encode m ≡ some text
unfolding persist
kept_text encode decode m text h = elim (Option-cases (encode m)) [
  | inl e ↦ absurd (cc (rw (e, persist) at h))
  | inr (t, e) ↦ let same : kept t ≡ kept text = rw (e, persist) at h in e ∙ cc
]

module _ (valid_string : Str → Bool) where
  insert-AreTexts :
      (key : Str) (a : Assignment) (m : Assignments)
      → valid_string key ≡ true
      → IsText valid_string a
      → AreTexts valid_string m
      → AreTexts valid_string (insert key a m)
  unfolding insert
  insert-AreTexts key a [] k t h = ((k, t), tt)
  insert-AreTexts key a ((j, b) ∷ m) k t (first, h) =
      let ih = insert-AreTexts key a m k t h in
      elim (Bool-cases (str_eq j key)) [
        | inl same ↦ rw (same, insert) ((k, t), h)
        | inr other ↦ rw (other, insert) (first, ih)
      ]

  apply-AreTexts :
      (json_unmarshal : Str → Option Command) (m : Assignments) (entry : Str)
      → ReadsTexts valid_string json_unmarshal
      → AreTexts valid_string m
      → AreTexts valid_string (apply json_unmarshal m entry)
  unfolding apply
  apply-AreTexts json_unmarshal m entry reads h = elim (Option-cases (json_unmarshal entry)) [
    | inl e ↦ rw (e, apply) h
    | inr (command, e) ↦
        let text = reads entry command e in
        elim (Bool-cases (str_eq command.kind (bytes "assign"))) [
          | inl assigns ↦
              rw (e, assigns, apply)
                (insert-AreTexts command.assignment.client_key command.assignment m text.0 text h)
          | inr other ↦ rw (e, other, apply) h
        ]
  ]

  apply_all-AreTexts :
      (json_unmarshal : Str → Option Command) (m : Assignments) (log : List Str)
      → ReadsTexts valid_string json_unmarshal
      → AreTexts valid_string m
      → AreTexts valid_string (apply_all json_unmarshal m log)
  unfolding apply_all
  apply_all-AreTexts json_unmarshal m [] reads h = h
  apply_all-AreTexts json_unmarshal m (entry ∷ log) reads h =
      apply_all-AreTexts json_unmarshal (apply json_unmarshal m entry) log reads
        (apply-AreTexts json_unmarshal m entry reads h)

-- A replica that restores a snapshot which another one took after the entries `front`, and then applies the
-- entries `rest`, reads the snapshot, and assigns every client like a replica that applied the whole
-- log, whatever it held before; JSON is taken to keep texts that are valid UTF-8, and to read no
-- others.
pub restore_replays :
    (valid_string : Str → Bool) (encode : Assignments → Option Str)
    (decode : Str → Option Assignments) (json_unmarshal : Str → Option Command)
    (front rest : List Str) (before : Assignments) (text key : Str)
    → ReadsTexts valid_string json_unmarshal
    → KeepsEntries valid_string encode decode
    → persist encode decode (snapshot (apply_all json_unmarshal [] front)) ≡ kept text
    → ((restore encode decode before text).1 ≡ true)
      × (lookup key (apply_all json_unmarshal (restore encode decode before text).0 rest)
          ≡ lookup key (apply_all json_unmarshal [] (front ++ rest)))
unfolding snapshot restore
restore_replays valid_string encode decode json_unmarshal front rest before text key texts keeps h =
    let m = apply_all json_unmarshal [] front in
    let (m', reads, same) =
      keeps m text (apply_all-AreTexts valid_string json_unmarshal [] front texts tt)
        (kept_text encode decode m text h) in
    (
      rw (reads, restore) refl,
      rw (reads, restore)
          (lookup-apply_all json_unmarshal key m' rest
            ∙ ap (λ o. last_write json_unmarshal key o rest) (same key)
            ∙ sym (lookup-apply_all json_unmarshal key m rest)
            ∙ ap (lookup key) (sym (apply_all-append json_unmarshal [] front rest))),
    )
