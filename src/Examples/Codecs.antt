-- ===== src/Examples/Codecs.antt =====
-- A codec of claims and of assignments: each text is preceded by its length, and each list by its.
use go_serve.Common.{
  Bool, true, ◌&&◌, ltb, ℕ, zero, suc, ◌≡◌, refl, ap, ap₂, ◌∙◌, Option, some, List, [], ◌∷◌, ◌++◌,
  Str, length, take,
}
use go_serve.Auth.{Claims, skip}
use go_serve.Auth.Session.{take-append, skip-append}
use go_serve.Cluster.{Assignment, Assignments}

-- Bytes below 128 are valid UTF-8.
abbrev pub ascii : Str → Bool
ascii [] = true
ascii (c ∷ s) = ltb c 128 && ascii s

abbrev put : Str → Str → Str
put s rest = length s ∷ (s ++ rest)

abbrev first : Str → Str
first [] = []
first (n ∷ text) = take n text

abbrev rest_of : Str → Str
rest_of [] = []
rest_of (n ∷ text) = skip n text

first-put : (s rest : Str) → first (put s rest) ≡ s
first-put s rest = take-append s rest

rest_of-put : (s rest : Str) → rest_of (put s rest) ≡ rest
rest_of-put s rest = skip-append s rest

abbrev head : Str → ℕ
head [] = 0
head (n ∷ text) = n

abbrev tail : Str → Str
tail [] = []
tail (n ∷ text) = text

abbrev put_all : List Str → Str
put_all [] = []
put_all (s ∷ texts) = put s (put_all texts)

abbrev get_all : ℕ → Str → List Str
get_all zero text = []
get_all (suc n) text = first text ∷ get_all n (rest_of text)

get_all-put_all : (texts : List Str) → get_all (length texts) (put_all texts) ≡ texts
get_all-put_all [] = refl
get_all-put_all (s ∷ texts) =
    ap₂ (λ a b. a ∷ b) (first-put s (put_all texts))
      (ap (get_all (length texts)) (rest_of-put s (put_all texts)) ∙ get_all-put_all texts)

abbrev pub marshal : Claims → Str
marshal c =
    put c.subject (put c.email (put c.nonce (c.expiry ∷ length c.scopes ∷ put_all c.scopes)))

abbrev claims_at : Str → Str → Str → Claims
claims_at subject_at email_at nonce_at = record {
  subject = first subject_at;
  email = first email_at;
  scopes = get_all (head (tail (rest_of nonce_at))) (tail (tail (rest_of nonce_at)));
  expiry = head (rest_of nonce_at);
  nonce = first nonce_at;
}

abbrev pub unmarshal : Str → Option Claims
unmarshal text = some (claims_at text (rest_of text) (rest_of (rest_of text)))

pub unmarshal-marshal : (c : Claims) → unmarshal (marshal c) ≡ some c
unmarshal-marshal c =
    let scopes = length c.scopes ∷ put_all c.scopes in
    rw
      (
        rest_of-put c.subject _,
        rest_of-put c.email _,
        rest_of-put c.nonce _,
        first-put c.subject _,
        first-put c.email _,
        first-put c.nonce _,
        get_all-put_all c.scopes,
      )
      refl

abbrev pub put_entries : Assignments → Str
put_entries [] = []
put_entries ((key, a) ∷ m) =
    put key (put a.client_key (put a.node_id (put a.peer_url (a.expires_at ∷ put_entries m))))

abbrev assignment_at : Str → Str → Str → Assignment
assignment_at key_at id_at url_at = record {
  client_key = first key_at;
  node_id = first id_at;
  peer_url = first url_at;
  expires_at = head (rest_of url_at);
}

abbrev get_entries : ℕ → Str → Assignments
get_entries zero text = []
get_entries (suc n) text =
    let key_at = rest_of text in
    let id_at = rest_of key_at in
    let url_at = rest_of id_at in
    (first text, assignment_at key_at id_at url_at) ∷ get_entries n (tail (rest_of url_at))

get_entries-put : (m : Assignments) → get_entries (length m) (put_entries m) ≡ m
get_entries-put [] = refl
get_entries-put ((key, a) ∷ m) =
    rw
      (
        rest_of-put key _,
        rest_of-put a.client_key _,
        rest_of-put a.node_id _,
        rest_of-put a.peer_url _,
        first-put key _,
        first-put a.client_key _,
        first-put a.node_id _,
        first-put a.peer_url _,
        get_entries-put m,
      )
      refl

abbrev pub encode : Assignments → Option Str
encode m = some (length m ∷ put_entries m)

abbrev pub decode : Str → Option Assignments
decode text = some (get_entries (head text) (tail text))

pub decode-encode : (m : Assignments) → decode (length m ∷ put_entries m) ≡ some m
decode-encode m = ap some (get_entries-put m)
