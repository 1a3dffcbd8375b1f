-- ===== src/Host/Memory/Containers.antt =====
-- Which containers are counted for which session.
use bigfleet_demo.Common.{
  ℕ, ◌≡◌, refl, sym, ap, ◌∙◌, ◌↔◌, ◌≢◌, inl, inr, true, false, not, ◌&&◌, none, some, List, [], ◌∷◌,
  ◌++◌, arith, Text, codes, text_eq, text_eq_iff, Bool-cases, Option-cases, All, subst,
}
use mathlib.Core.List.{Memᴰ}
use bigfleet_demo.Common.Listing.{All-listed}
use bigfleet_demo.Host.Http.{cut_prefix, is_empty}
use bigfleet_demo.Host.Http.Keys.{cut_prefix_iff}
use bigfleet_demo.Host.Identity.{IsSessionId, IsIdChar}
use bigfleet_demo.Host.Memory.{text_before, is_listed, is_theirs}

text_before_sound : (p s t : Text) → text_before p s ≡ some t → (r : Text) × (s ≡ t ++ (p ++ r))
unfolding text_before
text_before_sound p [] t e = absurd (ground (arith, e))
text_before_sound p (c ∷ s) t e = elim (Option-cases (cut_prefix p (c ∷ s))) [
  | inr (r, q) ↦
      let here : [] ≡ t = ground (arith, rw (q, text_before) at e) in
      (r, subst (λ t. c ∷ s ≡ t ++ (p ++ r)) here ((cut_prefix_iff p (c ∷ s) r).0 q))
  | inl q ↦ elim (Option-cases (text_before p s)) [
    | inl f ↦ absurd (ground (arith, rw (q, f, text_before) at e))
    | inr (t', f) ↦
        let (r, g) = text_before_sound p s t' f in
        let here : c ∷ t' ≡ t = ground (arith, rw (q, f, text_before) at e) in
        (r, subst (λ t. c ∷ s ≡ t ++ (p ++ r)) here (ap (λ l. c ∷ l) g))
  ]
]

cut_prefix-other : (c d : ℕ) (p s : Text) → d ≢ c → cut_prefix (c ∷ p) (d ∷ s) ≡ none
unfolding cut_prefix
cut_prefix-other c d p s ne = ground (arith, λ (e : d ≡ c). ne e)

-- A text without the first character of the pattern is read whole.
text_before-append :
    (c : ℕ) (p t r : Text) → All (λ d. d ≢ c) t → text_before (c ∷ p) (t ++ (c ∷ p ++ r)) ≡ some t
unfolding text_before
text_before-append c p [] r a =
    rw ((cut_prefix_iff (c ∷ p) (c ∷ p ++ r) r).1 refl, text_before) refl
text_before-append c p (d ∷ t) r a =
    let missed : cut_prefix (c ∷ p) (d ∷ (t ++ (c ∷ p ++ r))) ≡ none =
      cut_prefix-other c d p (t ++ (c ∷ p ++ r)) a.0 in
    rw (missed, text_before-append c p t r a.1, text_before) refl

-- A letter or a digit is no dash.
session_id-no_dash : (id : Text) → IsSessionId id → All (λ d. d ≢ b'-') id
session_id-no_dash [] h = absurd h
session_id-no_dash (c ∷ s) h = ((λ e. omega (arith, h.0.0, e)), rest s h.2)
  where
    rest : (s : Text) → All IsIdChar s → All (λ d. d ≢ b'-') s
    rest [] a = tt
    rest (d ∷ s) (inl l, a) = ((λ e. omega (arith, l.0, e)), rest s a)
    rest (d ∷ s) (inr l, a) = ((λ e. omega (arith, l.0, e)), rest s a)

-- The name of a container of a session's cluster; `kwokctl` names what is behind the dash.
abbrev pub cluster_name : Text → Text → Text
cluster_name id tail = codes "kwok-" ++ (id ++ (codes "-cluster" ++ tail))

is_listed-Memᴰ : (id : Text) (ids : List Text) → (is_listed id ids ≡ true) ↔ Memᴰ id ids
unfolding is_listed
is_listed-Memᴰ id ids = (there ids, back ids)
  where
    there : (ids : List Text) → is_listed id ids ≡ true → Memᴰ id ids
    there [] e = absurd (ground (arith, e))
    there (i ∷ ids) e = elim (Bool-cases (text_eq i id)) [
      | inl q ↦ Memᴰ.head (sym ((text_eq_iff i id).0 q))
      | inr q ↦ Memᴰ.tail (there ids (ground (arith, e, q)))
    ]

    back : (ids : List Text) → Memᴰ id ids → is_listed id ids ≡ true
    back [] l = elim l [ ]
    back (i ∷ ids) (Memᴰ.head e) = ground (arith, (text_eq_iff i id).1 (sym e))
    back (i ∷ ids) (Memᴰ.tail l) = ground (arith, back ids l)

nonempty : (id : Text) → IsSessionId id → is_empty id ≡ false
nonempty [] h = absurd h
nonempty (c ∷ s) h = refl

is_theirs-cluster_name :
    (ids : List Text) (id tail : Text)
    → IsSessionId id
    → is_theirs ids (cluster_name id tail) ≡ is_listed id ids
unfolding is_theirs
is_theirs-cluster_name ids id tail is_id =
    let rest = id ++ (codes "-cluster" ++ tail) in
    let p = (cut_prefix_iff (codes "kwok-") (cluster_name id tail) rest).1 refl in
    let q = text_before-append b'-' (codes "cluster") id tail (session_id-no_dash id is_id) in
    rw (p, q, is_theirs) (ground (arith, nonempty id is_id))

is_theirs_sound :
    (ids : List Text) (n : Text)
    → is_theirs ids n ≡ true
    → (id : Text) × (tail : Text) × Memᴰ id ids × (n ≡ cluster_name id tail)
unfolding is_theirs
is_theirs_sound ids n e = elim (Option-cases (cut_prefix (codes "kwok-") n)) [
  | inl p ↦ absurd (ground (arith, rw (p, is_theirs) at e))
  | inr (rest, p) ↦ elim (Option-cases (text_before (codes "-cluster") rest)) [
    | inl q ↦ absurd (ground (arith, rw (p, q, is_theirs) at e))
    | inr (id, q) ↦
        let (tail, f) = text_before_sound (codes "-cluster") rest id q in
        let both : (not (is_empty id) && is_listed id ids) ≡ true = rw (p, q, is_theirs) at e in
        (
          id,
          tail,
          (is_listed-Memᴰ id ids).0 (ground (arith, both)),
          (cut_prefix_iff (codes "kwok-") n rest).0 p ∙ ap (λ l. codes "kwok-" ++ l) f,
        )
  ]
]

-- Where `ids` are ids of sessions: a container is counted for them exactly where its name begins with
-- `kwok-`, one of these ids and `-cluster`, whatever follows; and one whose name begins so with the id
-- of any session is counted for `ids` exactly where that session is one of them, so that none is
-- charged for another's container.
pub is_theirs_iff :
    (ids : List Text) (n id tail : Text)
    → All IsSessionId ids
    → IsSessionId id
    → ((is_theirs ids n ≡ true) ↔ ((i : Text) × (t : Text) × Memᴰ i ids × (n ≡ cluster_name i t)))
      × ((is_theirs ids (cluster_name id tail) ≡ true) ↔ Memᴰ id ids)
is_theirs_iff ids n id tail all is_id = ((is_theirs_sound ids n, complete), one id tail is_id)
  where
    one :
        (id tail : Text)
        → IsSessionId id
        → (is_theirs ids (cluster_name id tail) ≡ true) ↔ Memᴰ id ids
    one id tail is_id =
        let same = is_theirs-cluster_name ids id tail is_id in
        let member = is_listed-Memᴰ id ids in
        ((λ e. member.0 (sym same ∙ e)), (λ l. same ∙ member.1 l))

    complete :
        ((i : Text) × (t : Text) × Memᴰ i ids × (n ≡ cluster_name i t)) → is_theirs ids n ≡ true
    complete (i, t, l, e) = rw e ((one i t (All-listed IsSessionId i ids all l)).1 l)
