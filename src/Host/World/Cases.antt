-- ===== src/Host/World/Cases.antt =====
-- What each critical section may do to the host, as rules that reduce a claim about it to the
-- elementary writes: register, remove, modify, a walk over the sessions, a counter.
use bigfleet_demo.Common.{
  ℕ, zero, suc, ◌+◌, ◌-◌, ◌≡◌, inl, inr, Bool, true, false, none, some, List, Text, Option-cases,
  Bool-cases, ltb, text_has_eq, nat_eq,
}
use mathlib.Core.Path.{subst}
use mathlib.Core.Option.{some-injective, none-ne-some}
use bigfleet_demo.Common.Dict.{lookup, delete}
use bigfleet_demo.Host.State.{
  Session, Host, Reason, Completion, register, remove, modify, append_completion,
}
use bigfleet_demo.Host.Admission.{admitted, admit}
use bigfleet_demo.Host.Admission.Decision.{Admission-cases}
use bigfleet_demo.Host.Ports.{alloc_base}
use bigfleet_demo.Host.Identity.{Draw, gen_id}
use bigfleet_demo.Host.Create.{find_ready, hand_out, take_pooled, new_session, begin_create}
use bigfleet_demo.Host.Pool.{launch_loop, begin_pooled}
use bigfleet_demo.Host.Reaper.{begin_delete, mark_reaping}

module _ {ℓ} (P : Host → Type ℓ) (free : ℕ → Bool) (draws : List Draw) (now : ℕ) (h : Host) where
  pub begin_create_cases :
      P h
      → ((k : Text) (s : Session)
          → find_ready h.sessions ≡ some (k, s)
          → P (modify k (hand_out h.cfg.ttl now) h))
      → ((base : ℕ) (id : Text)
          → admit h ≡ admitted
          → alloc_base free h ≡ some base
          → gen_id draws h ≡ some id
          → P (register (new_session h.cfg id base now false (some now)) h))
      → P (begin_create free draws now h).1
  unfolding begin_create take_pooled
  begin_create_cases same handed launched = elim (Option-cases (find_ready h.sessions)) [
    | inr ((k, s), e) ↦ rw (e, begin_create, take_pooled) (handed k s e)
    | inl e ↦ elim (Admission-cases (admit h)) [
      | inr (r, a) ↦ rw (e, a, begin_create, take_pooled) same
      | inl a ↦ elim (Option-cases (alloc_base free h)) [
        | inl b ↦ rw (e, a, b, begin_create, take_pooled) same
        | inr (base, b) ↦ elim (Option-cases (gen_id draws h)) [
          | inl g ↦ rw (e, a, b, g, begin_create, take_pooled) same
          | inr (id, g) ↦ rw (e, a, b, g, begin_create, take_pooled) (launched base id a b g)
        ]
      ]
    ]
  ]

  -- `createPooled` either only gives its slot back, or gives it back and registers a session.
  pub begin_pooled_cases :
      (h' : Host)
      → begin_pooled free draws now h ≡ some h'
      → P (record h { pool_in_flight = h.pool_in_flight - 1 })
      → ((base : ℕ) (id : Text)
          → alloc_base free h ≡ some base
          → gen_id draws h ≡ some id
          → P (
              register
                (new_session h.cfg id base now true none)
                (record h { pool_in_flight = h.pool_in_flight - 1 })))
      → P h'
  unfolding begin_pooled
  begin_pooled_cases h' e gave_up launched = elim (Option-cases (alloc_base free h)) [
    | inl b ↦ subst P (some-injective _ _ (rw (b, begin_pooled) at e)) gave_up
    | inr (base, b) ↦ elim (Option-cases (gen_id draws h)) [
      | inl g ↦ absurd (none-ne-some _ (rw (b, g, begin_pooled) at e))
      | inr (id, g) ↦
          subst P (some-injective _ _ (rw (b, g, begin_pooled) at e)) (launched base id b g)
    ]
  ]

module _ {ℓ} (P : Host → Type ℓ) (id : Text) (h : Host) where
  pub remove_cases :
      P h
      → ((s : Session)
          → lookup id h.sessions ≡ some s
          → P (record h {
            used_bases = delete s.port_base h.used_bases;
            sessions = delete id h.sessions;
          }))
      → P (remove id h)
  unfolding remove
  remove_cases absent present = elim (Option-cases (lookup id h.sessions)) [
    | inl e ↦ rw (e, remove) absent
    | inr (s, e) ↦ rw (e, remove) (present s e)
  ]

  pub begin_delete_cases : P h → P (modify id mark_reaping h) → P (begin_delete id h).1
  unfolding begin_delete
  begin_delete_cases absent present = elim (Option-cases (lookup id h.sessions)) [
    | inl e ↦ rw (e, begin_delete) absent
    | inr (s, e) ↦ rw (e, begin_delete) present
  ]

-- A record of the ring of completions touches nothing else.
pub append_completion_cases {ℓ} :
    (P : Host → Type ℓ) (s : Session) (r : Reason) (now : ℕ) (h : Host)
    → ((cs : List Completion) → P (record h { completions = cs }))
    → P (append_completion s r now h)
unfolding append_completion
append_completion_cases P s r now h same = elim (Option-cases s.assigned_at) [
  | inl e ↦ rw (e, append_completion) (same h.completions)
  | inr (at, e) ↦ rw (e, append_completion) (same _)
]

-- The launch loop only counts: a claim that one more admitted launch keeps holds at its end.
pub launch_loop_inv {ℓ} :
    (P : ℕ → Host → Type ℓ) (pooled_now : ℕ)
    → ((launch : ℕ) (h : Host)
        → ltb (pooled_now + h.pool_in_flight + launch) h.cfg.warm_pool ≡ true
        → admit h ≡ admitted
        → P launch h
        → P (launch + 1) (record h { pool_in_flight = h.pool_in_flight + 1 }))
    → (fuel launch : ℕ) (h : Host) → P launch h
    → P (launch_loop fuel pooled_now launch h).0 (launch_loop fuel pooled_now launch h).1
unfolding launch_loop
launch_loop_inv P pooled_now keep zero launch h p = p
launch_loop_inv P pooled_now keep (suc fuel) launch h p =
    elim (Bool-cases (ltb (pooled_now + h.pool_in_flight + launch) h.cfg.warm_pool)) [
      | inr full ↦ rw (full, launch_loop) p
      | inl short ↦ elim (Admission-cases (admit h)) [
        | inr (r, a) ↦ rw (short, a, launch_loop) p
        | inl a ↦
            rw (short, a, launch_loop)
              (launch_loop_inv P pooled_now keep fuel (launch + 1)
                (record h { pool_in_flight = h.pool_in_flight + 1 }) (keep launch h short a p))
      ]
    ]
