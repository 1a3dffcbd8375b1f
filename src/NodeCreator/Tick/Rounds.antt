-- ===== src/NodeCreator/Tick/Rounds.antt =====
-- What one round of the loop over the upcoming nodes comes to, by cases on its tests.
use bigfleet_demo.Common.{ℕ, ◌≡◌, refl, Bool, true, false, not, ◌++◌, if◌then◌else◌, text_has_eq}
use bigfleet_demo.Common.Dict.{insert}
use bigfleet_demo.NodeCreator.Names.{UpcomingNode}
use bigfleet_demo.NodeCreator.Tick.{
  Timing, Answers, Minting, mint_one, create, note, is_provisioning, first_seen,
}

choose_elim {ℓ κ} :
    {A : Type ℓ} (p q r : Bool) (P : A → Type κ) (x y z : A)
    → (p ≡ false → P x)
    → (p ≡ true → q ≡ true → P x)
    → (p ≡ true → q ≡ false → r ≡ true → P y)
    → (p ≡ true → q ≡ false → r ≡ false → P z)
    → P (if not p then x else if q then x else if r then y else z)
choose_elim false q r P x y z a b c d = a refl
choose_elim true true r P x y z a b c d = b refl refl
choose_elim true false true P x y z a b c d = c refl refl refl
choose_elim true false false P x y z a b c d = d refl refl refl

module _ (t : Timing) (now : ℕ) (u : UpcomingNode) (a : Answers) (m : Minting) where
  abbrev pub since : ℕ
  since = first_seen u.name now (note t u m).first_ready

  -- The variables once the upcoming node is known to be ready since a time.
  abbrev pub seen : Minting
  seen =
      let m' = note t u m in
      record m' {
        first_ready = insert u.name (first_seen u.name now m'.first_ready) m'.first_ready;
      }

  abbrev pub created : Minting
  created = record seen { calls = (note t u m).calls ++ (create t u a).0 }

  pub mint_one_elim {κ} :
      (P : Minting × Bool → Type κ)
      → (u.is_ready ≡ false → P (note t u m, true))
      → (u.is_ready ≡ true → a.is_there ≡ true → P (note t u m, true))
      → (u.is_ready ≡ true
          → a.is_there ≡ false
          → is_provisioning t now since u.name ≡ true
          → P (seen, true))
      → (u.is_ready ≡ true
          → a.is_there ≡ false
          → is_provisioning t now since u.name ≡ false
          → P (created, (create t u a).1))
      → P (mint_one t now (u, a) m)
  unfolding mint_one
  mint_one_elim P =
      choose_elim u.is_ready a.is_there (is_provisioning t now since u.name) P (note t u m, true)
        (seen, true) (created, (create t u a).1)
