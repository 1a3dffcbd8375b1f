-- ===== src/Host/World/Consistent.antt =====
-- When the registry of sessions and the map of used port blocks agree, and the writes that keep them so.
use bigfleet_demo.Common.{
  ℕ, ◌+◌, ◌*◌, ◌<◌, ◌≡◌, refl, ◌∙◌, ap, subst, Bool, true, false, Option, none, some, List, arith,
  Text, bit, eqb, eqb_iff, text_has_eq, nat_eq, if◌then◌else◌,
}
use bigfleet_demo.Common.Dict.{Dict, lookup, insert, delete, lookup-insert, lookup-delete, Unique}
use bigfleet_demo.Common.Dict.Counting.{
  count_if, adjust, insert-Unique, delete-Unique, update-Unique, adjust-Unique, count_if-adjust_eq,
  count_if-update_eq, count_if-insert_fresh, count_if-delete,
}
use bigfleet_demo.Common.Dict.Every.{Every, Every-insert, Every-delete, Every-update, Every-adjust}
use bigfleet_demo.Host.State.{Config, Session, Host, is_used, register, remove, modify}
use bigfleet_demo.Host.Ports.{alloc_base, port_blocks, alloc_base-IsLowest, IsLowest}
use bigfleet_demo.Host.Identity.{Draw, gen_id, gen_id_fresh}
use bigfleet_demo.Host.Create.{new_session}
use bigfleet_demo.Host.World.Cases.{remove_cases}

-- Whether a session's port block begins at `b`.
abbrev pub on_port : ℕ → Session → Bool
on_port b s = eqb s.port_base b

-- An entry stands under its own id, on one of the configured blocks, with the configured share.
abbrev pub EntryOk : Config → Text → Session → Type 0
EntryOk cfg k s =
    (s.id ≡ k)
    × (s.reserved_mb ≡ cfg.session_mb)
    × (j : ℕ) × (j < cfg.max_sessions * 4 + 8)
    × (s.port_base ≡ cfg.port_base + j * cfg.stride)

pub record IsConsistent (cfg : Config) (h : Host) : Type 0 where
  pub same_cfg : h.cfg ≡ cfg
  pub unique : Unique h.sessions
  pub owned : (b : ℕ) → count_if (on_port b) h.sessions ≡ bit (is_used b h.used_bases)
  pub entries : Every (EntryOk cfg) h.sessions

pub is_used-insert :
    (b a : ℕ) (m : Dict ℕ Bool)
    → is_used a (insert b true m) ≡ (if eqb b a then true else is_used a m)
unfolding is_used
is_used-insert b a m = ground (arith, lookup-insert b a true m)

pub is_used-delete :
    (b a : ℕ) (m : Dict ℕ Bool) → is_used a (delete b m) ≡ (if eqb b a then false else is_used a m)
unfolding is_used
is_used-delete b a m = ground (arith, lookup-delete b a m)

-- A write to a session that leaves its id, its port and its share alone.
abbrev pub Keeps : (Session → Session) → Type 0
Keeps f =
    (s : Session)
    → ((f s).port_base ≡ s.port_base) × ((f s).id ≡ s.id) × ((f s).reserved_mb ≡ s.reserved_mb)

module _ (cfg : Config) where
  pub Keeps-EntryOk :
      (f : Session → Session)
      → Keeps f
      → (k : Text) (s : Session) → EntryOk cfg k s
      → EntryOk cfg k (f s)
  Keeps-EntryOk f keeps k s (own, share, j, below, port) =
      ((keeps s).1 ∙ own, (keeps s).2 ∙ share, j, below, (keeps s).0 ∙ port)

  pub register-IsConsistent :
      (s : Session) (h : Host)
      → EntryOk cfg s.id s
      → is_used s.port_base h.used_bases ≡ false
      → lookup s.id h.sessions ≡ none
      → IsConsistent cfg h
      → IsConsistent cfg (register s h)
  unfolding register
  register-IsConsistent s h entry unused fresh c = record {
    same_cfg = c.same_cfg;
    unique = insert-Unique s.id s h.sessions c.unique;
    owned = λ b. ground (
      arith,
      count_if-insert_fresh (on_port b) s.id s h.sessions fresh,
      is_used-insert s.port_base b h.used_bases,
      c.owned b,
      eqb_iff s.port_base b,
    );
    entries = Every-insert (EntryOk cfg) s.id s h.sessions entry c.entries;
  }

  pub remove-IsConsistent :
      (id : Text) (h : Host) → IsConsistent cfg h → IsConsistent cfg (remove id h)
  remove-IsConsistent id h c = remove_cases (IsConsistent cfg) id h c λ s e. record {
    same_cfg = c.same_cfg;
    unique = delete-Unique id h.sessions c.unique;
    owned = λ b. ground (
      arith,
      count_if-delete (on_port b) id s h.sessions c.unique e,
      is_used-delete s.port_base b h.used_bases,
      c.owned b,
      eqb_iff s.port_base b,
    );
    entries = Every-delete (EntryOk cfg) id h.sessions c.entries;
  }

  pub modify-IsConsistent :
      (id : Text) (f : Session → Session) (h : Host)
      → Keeps f
      → IsConsistent cfg h
      → IsConsistent cfg (modify id f h)
  unfolding modify
  modify-IsConsistent id f h keeps c = record {
    same_cfg = c.same_cfg;
    unique = update-Unique id f h.sessions c.unique;
    owned = λ b.
        count_if-update_eq (on_port b) id f h.sessions (λ s. ap (λ n. eqb n b) (keeps s).0)
        ∙ c.owned b;
    entries = Every-update (EntryOk cfg) id f h.sessions (Keeps-EntryOk f keeps) c.entries;
  }

  pub adjust-IsConsistent :
      (f : Session → Session) (h : Host)
      → Keeps f
      → IsConsistent cfg h
      → IsConsistent cfg (record h { sessions = adjust f h.sessions })
  adjust-IsConsistent f h keeps c = record {
    same_cfg = c.same_cfg;
    unique = adjust-Unique f h.sessions c.unique;
    owned = λ b.
        count_if-adjust_eq (on_port b) f h.sessions (λ s. ap (λ n. eqb n b) (keeps s).0)
        ∙ c.owned b;
    entries = Every-adjust (EntryOk cfg) f h.sessions (Keeps-EntryOk f keeps) c.entries;
  }

  -- The counter of launches is no part of the claim.
  pub flight-IsConsistent :
      (n : ℕ) (h : Host) → IsConsistent cfg h → IsConsistent cfg (record h { pool_in_flight = n })
  flight-IsConsistent n h c = record {
    same_cfg = c.same_cfg;
    unique = c.unique;
    owned = c.owned;
    entries = c.entries;
  }

  -- A session that has just got its port and its id.
  pub launch-IsConsistent :
      (free : ℕ → Bool) (draws : List Draw) (now base : ℕ) (id : Text) (is_pooled : Bool)
      (assigned_at : Option ℕ) (h : Host)
      → alloc_base free h ≡ some base
      → gen_id draws h ≡ some id
      → IsConsistent cfg h
      → IsConsistent cfg (register (new_session h.cfg id base now is_pooled assigned_at) h)
  unfolding new_session
  launch-IsConsistent free draws now base id is_pooled assigned_at h b g c =
      let (j, at, below, unused, _, _) =
        subst (IsLowest free h 0 (port_blocks h)) b (alloc_base-IsLowest free h) in
      register-IsConsistent _ h
        (subst (λ k. EntryOk k id (new_session h.cfg id base now is_pooled assigned_at)) c.same_cfg
          (refl, refl, j, below, at))
        unused (gen_id_fresh draws h id g).1 c
