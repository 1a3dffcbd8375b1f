-- ===== src/Host/Identity.antt =====
-- cmd/demohost/main.go: `genID`, a random session id that the registry does not hold. The random
-- bytes are an argument, five to a round of the loop.
use bigfleet_demo.Common.{
  ℕ, zero, suc, ◌%◌, ◌≤◌, ◌<◌, ◌≡◌, refl, ◌⊎◌, inl, inr, Option, none, some, List, [], ◌∷◌, ◌++◌,
  arith, Text, codes, Option-cases, length, get_elem?, All, text_has_eq,
}
use bigfleet_demo.Common.Dict.{lookup}
use bigfleet_demo.Host.State.{Host}

-- The bytes that one round reads.
pub record Draw : Type 0 where
  pub b0 : ℕ
  pub b1 : ℕ
  pub b2 : ℕ
  pub b3 : ℕ
  pub b4 : ℕ

abbrev first : Text
first = codes "abcdefghijkmnpqrstuvwxyz"

abbrev rest : Text
rest = codes "abcdefghijkmnpqrstuvwxyz23456789"

-- `alphabet[i]`; the index is in range, as `char_at_in` states.
char_at : Text → ℕ → ℕ
char_at alphabet i = elim (get_elem? alphabet i) [ none ↦ 0 | some c ↦ c ]

unfoldable pub id_of : Draw → Text
unfolding char_at
id_of d =
    char_at first (d.b0 % length first)
    ∷ char_at rest (d.b1 % length rest)
    ∷ char_at rest (d.b2 % length rest)
    ∷ char_at rest (d.b3 % length rest)
    ∷ char_at rest (d.b4 % length rest)
    ∷ []

-- `none`: every draw that was supplied gave an id that is taken, and the loop would draw again.
unfoldable pub gen_id : List Draw → Host → Option Text
gen_id [] h = none
gen_id (d ∷ ds) h = elim (lookup (id_of d) h.sessions) [
  | none ↦ some (id_of d)
  | some s ↦ gen_id ds h
]

-- A lower-case letter other than l and o.
abbrev pub IsIdLetter : ℕ → Type 0
IsIdLetter c = (b'a' ≤ c) × (c ≤ b'z') × (c ≡ b'l' → ⊥) × (c ≡ b'o' → ⊥)

-- Such a letter, or a digit from 2 to 9.
abbrev pub IsIdChar : ℕ → Type 0
IsIdChar c = IsIdLetter c ⊎ ((b'2' ≤ c) × (c ≤ b'9'))

abbrev pub IsSessionId : Text → Type 0
IsSessionId [] = ⊥
IsSessionId (c ∷ s) = IsIdLetter c × (length s ≡ 4) × All IsIdChar s

char_at_in {ℓ} :
    (P : ℕ → Type ℓ) (alphabet : Text) (i : ℕ)
    → All P alphabet
    → i < length alphabet
    → P (char_at alphabet i)
unfolding char_at
char_at_in P [] i all h = absurd (omega arith)
char_at_in P (c ∷ s) zero all h = all.0
char_at_in P (c ∷ s) (suc i) all h = char_at_in P s i all.1 (omega arith)

first-All : All IsIdLetter first
first-All = omega arith

rest-All : All IsIdChar rest
rest-All = omega arith

id_of-IsSessionId : (d : Draw) → IsSessionId (id_of d)
unfolding id_of
id_of-IsSessionId d =
    let char = λ (i : ℕ). char_at_in IsIdChar rest (i % 32) rest-All (omega arith) in
    (
      char_at_in IsIdLetter first (d.b0 % 24) first-All (omega arith),
      refl,
      (char d.b1, (char d.b2, (char d.b3, (char d.b4, tt)))),
    )

-- An id is a letter and four letters or digits, none of them easily misread, and no session of the
-- registry has it.
pub gen_id_fresh :
    (ds : List Draw) (h : Host) (id : Text)
    → gen_id ds h ≡ some id
    → IsSessionId id × (lookup id h.sessions ≡ none)
unfolding gen_id
gen_id_fresh [] h id e = ground arith
gen_id_fresh (d ∷ ds) h id e = elim (Option-cases (lookup (id_of d) h.sessions)) [
  | inl free ↦
      let same : id_of d ≡ id = ground (arith, e, free) in rw (← same) (id_of-IsSessionId d, free)
  | inr (s, busy) ↦ gen_id_fresh ds h id (rw (busy, gen_id) at e)
]

-- The loop ends as soon as a draw gives an id that is not taken.
gen_id_ends :
    (before : List Draw) (d : Draw) (after : List Draw) (h : Host)
    → lookup (id_of d) h.sessions ≡ none
    → (id : Text) × (gen_id (before ++ d ∷ after) h ≡ some id)
unfolding gen_id
gen_id_ends [] d after h e = (id_of d, rw (e, gen_id))
gen_id_ends (b ∷ before) d after h e = elim (Option-cases (lookup (id_of b) h.sessions)) [
  | inl free ↦ (id_of b, rw (free, gen_id))
  | inr (s, busy) ↦ rw (busy, gen_id) (gen_id_ends before d after h e)
]
