-- ===== src/Host/Scripts/Sweep.antt =====
-- Which sessions of an earlier daemon are swept.
use bigfleet_demo.Common.{
  ◌≡◌, refl, sym, ap, ◌∙◌, inl, inr, Bool, true, false, not, ◌&&◌, ◌||◌, Option, none, some, List,
  [], ◌∷◌, ◌++◌, arith, Text, text_eq, text_eq_iff, text_has_eq, if◌then◌else◌, Bool-cases,
  Option-cases,
}
use mathlib.Core.List.{reverse, reverse-append, reverse-reverse}
use bigfleet_demo.Common.Dict.{lookup, insert, lookup-insert}
use bigfleet_demo.Host.Http.{cut_prefix, trim_space, is_empty}
use bigfleet_demo.Host.Http.Keys.{cut_prefix_iff}
use bigfleet_demo.Host.Memory.{split, cut_suffix}
use bigfleet_demo.Host.Scripts.{
  Ids, Entry, cluster_suffixes, add_suffixes, add_lines, add_entries, orphans,
}

cut_suffix_sound : (p s r : Text) → cut_suffix p s ≡ some r → s ≡ r ++ p
unfolding cut_suffix
cut_suffix_sound p s r h = elim (Option-cases (cut_prefix (reverse p) (reverse s))) [
  | inl e ↦ absurd (ground (arith, rw (e, cut_suffix) at h))
  | inr (q, e) ↦
      let same : reverse q ≡ r = ground (arith, rw (e, cut_suffix) at h) in
      let whole : reverse s ≡ reverse p ++ q = (cut_prefix_iff (reverse p) (reverse s) q).0 e in
      sym (reverse-reverse s)
      ∙ ap reverse whole
      ∙ reverse-append (reverse p) q
      ∙ ap (λ t. t ++ reverse (reverse p)) same
      ∙ ap (λ t. r ++ t) (reverse-reverse p)
]

cut_suffix_complete : (p r : Text) → cut_suffix p (r ++ p) ≡ some r
unfolding cut_suffix
cut_suffix_complete p r =
    let whole : cut_prefix (reverse p) (reverse (r ++ p)) ≡ some (reverse r) =
      (cut_prefix_iff (reverse p) (reverse (r ++ p)) (reverse r)).1 (reverse-append r p) in
    rw (whole, cut_suffix) (ap some (reverse-reverse r))

abbrev pub is_there : Option (Unit {0}) → Bool
is_there none = false
is_there (some u) = true

abbrev pub is_held : Text → Ids → Bool
is_held id ids = is_there (lookup id ids)

there_if :
    (b : Bool) (o : Option (Unit {0})) → is_there (if b then some tt else o) ≡ (b || is_there o)
there_if true o = refl
there_if false o = refl

swap : (a b c : Bool) → (a || (b || c)) ≡ ((b || a) || c)
swap a b c = ground arith

and_assoc : (a b c : Bool) → ((a && b) && c) ≡ (a && (b && c))
and_assoc a b c = ground arith

module _ (id : Text) where
  -- The line is the name of a cluster of the session.
  unfoldable pub names_cluster : List Text → Text → Bool
  names_cluster [] ln = false
  names_cluster (suf ∷ sufs) ln = text_eq ln (id ++ suf) || names_cluster sufs ln

  unfoldable pub in_lines : List Text → Bool
  in_lines [] = false
  in_lines (ln ∷ lns) = names_cluster cluster_suffixes (trim_space ln) || in_lines lns

  -- The session has a directory of its own.
  unfoldable pub in_entries : List Entry → Bool
  in_entries [] = false
  in_entries (e ∷ es) = (e.is_dir && (not (is_empty e.name) && text_eq e.name id)) || in_entries es

  is_held-insert :
      (k : Text) (ids : Ids) → is_held id (insert k tt ids) ≡ (text_eq k id || is_held id ids)
  is_held-insert k ids =
      ap is_there (lookup-insert k id tt ids) ∙ there_if (text_eq k id) (lookup id ids)

  -- One suffix.
  cut_suffix-held :
      (suf ln : Text) (ids : Ids)
      → is_held id (elim (cut_suffix suf ln) [ none ↦ ids | some k ↦ insert k tt ids ])
        ≡ (text_eq ln (id ++ suf) || is_held id ids)
  cut_suffix-held suf ln ids = elim (Option-cases (cut_suffix suf ln)) [
    | inl e ↦
        let other : text_eq ln (id ++ suf) ≡ false = elim (Bool-cases (text_eq ln (id ++ suf))) [
          | inr f ↦ f
          | inl f ↦
              let named : ln ≡ id ++ suf = (text_eq_iff ln (id ++ suf)).0 f in
              absurd
                (ground (arith, sym e ∙ ap (cut_suffix suf) named ∙ cut_suffix_complete suf id))
        ] in
        rw (e, other) refl
    | inr (k, e) ↦ rw e (is_held-insert k ids ∙ ap (λ b. b || is_held id ids) (same k e))
  ]
    where
      same : (k : Text) → cut_suffix suf ln ≡ some k → text_eq k id ≡ text_eq ln (id ++ suf)
      same k e =
          let whole : ln ≡ k ++ suf = cut_suffix_sound suf ln k e in
          elim (Bool-cases (text_eq k id)) [
            | inl f ↦
                let here : k ≡ id = (text_eq_iff k id).0 f in
                f ∙ sym ((text_eq_iff ln (id ++ suf)).1 (whole ∙ ap (λ t. t ++ suf) here))
            | inr f ↦ elim (Bool-cases (text_eq ln (id ++ suf))) [
              | inr g ↦ f ∙ sym g
              | inl g ↦
                  let named : ln ≡ id ++ suf = (text_eq_iff ln (id ++ suf)).0 g in
                  let back : some k ≡ some id =
                    sym e ∙ ap (cut_suffix suf) named ∙ cut_suffix_complete suf id in
                  let here : k ≡ id = ground (arith, back) in
                  absurd (ground (arith, f, (text_eq_iff k id).1 here))
            ]
          ]

  add_suffixes-held :
      (sufs : List Text) (ln : Text) (ids : Ids)
      → is_held id (add_suffixes sufs ln ids) ≡ (names_cluster sufs ln || is_held id ids)
  unfolding add_suffixes names_cluster
  add_suffixes-held [] ln ids = refl
  add_suffixes-held (suf ∷ sufs) ln ids =
      add_suffixes-held sufs ln _
      ∙ ap (λ b. names_cluster sufs ln || b) (cut_suffix-held suf ln ids)
      ∙ swap (names_cluster sufs ln) (text_eq ln (id ++ suf)) (is_held id ids)

  add_lines-held :
      (lns : List Text) (ids : Ids)
      → is_held id (add_lines lns ids) ≡ (in_lines lns || is_held id ids)
  unfolding add_lines in_lines
  add_lines-held [] ids = refl
  add_lines-held (ln ∷ lns) ids =
      let here = names_cluster cluster_suffixes (trim_space ln) in
      add_lines-held lns _
      ∙ ap (λ b. in_lines lns || b) (add_suffixes-held cluster_suffixes (trim_space ln) ids)
      ∙ swap (in_lines lns) here (is_held id ids)

  entry-held :
      (b : Bool) (name : Text) (ids : Ids)
      → is_held id (if b then insert name tt ids else ids)
        ≡ ((b && text_eq name id) || is_held id ids)
  entry-held true name ids = is_held-insert name ids
  entry-held false name ids = refl

  add_entries-held :
      (es : List Entry) (ids : Ids)
      → is_held id (add_entries es ids) ≡ (in_entries es || is_held id ids)
  unfolding add_entries in_entries
  add_entries-held [] ids = refl
  add_entries-held (e ∷ es) ids =
      let b = e.is_dir && not (is_empty e.name) in
      add_entries-held es _
      ∙ ap (λ h. in_entries es || h) (entry-held b e.name ids)
      ∙ swap (in_entries es) (b && text_eq e.name id) (is_held id ids)
      ∙ ap (λ h. (h || in_entries es) || is_held id ids)
          (and_assoc e.is_dir (not (is_empty e.name)) (text_eq e.name id))

  -- The session is swept exactly where a line of the list of clusters is one of its three names, or it
  -- has a directory.
  unfoldable pub is_orphan : Option Text → Option (List Entry) → Bool
  is_orphan out entries =
      elim entries [ none ↦ false | some es ↦ in_entries es ]
      || elim out [ none ↦ false | some s ↦ in_lines (split 10 (trim_space s)) ]

pub orphans-held :
    (id : Text) (out : Option Text) (es : Option (List Entry))
    → is_held id (orphans out es) ≡ is_orphan id out es
unfolding orphans is_orphan lookup
orphans-held id none none = refl
orphans-held id none (some es) = add_entries-held id es []
orphans-held id (some s) none = add_lines-held id (split 10 (trim_space s)) [] ∙ ground arith
orphans-held id (some s) (some es) =
    add_entries-held id es _
    ∙ ap (λ b. in_entries id es || b)
        (add_lines-held id (split 10 (trim_space s)) [] ∙ ground arith)
