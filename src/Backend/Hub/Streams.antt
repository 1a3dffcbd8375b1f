-- ===== src/Backend/Hub/Streams.antt =====
-- The limits of the hub.
use bigfleet_demo.Common.{
  ℕ, zero, suc, ◌+◌, ◌≤◌, ◌<◌, ◌≡◌, refl, sym, ap, ◌∙◌, inl, inr, some, List, [], ◌∷◌, ◌++◌, arith,
  Text, ltb, leb, length, take, length-append, nat_eq, Bool-cases, Option-cases,
}
use bigfleet_demo.Common.Dict.{Dict, lookup, insert, delete}
use bigfleet_demo.Common.Dict.Counting.{adjust}
use bigfleet_demo.Common.Dict.Every.{Every, Every-insert, Every-delete, Every-lookup, Every-adjust}
use bigfleet_demo.Backend.Hub.{
  max_sse_clients, buffered, Hub, new_hub, offer, broadcast, open_stream, take_message,
  close_stream, HubStep, broadcasts, opens, takes, closes, hub_step, hub_run,
}

-- At most 64 streams, each with at most 4 waiting messages and with a channel that has been made.
pub record InCap (h : Hub) : Type 0 where
  pub streams : length h.clients ≤ max_sse_clients
  pub waiting : Every (λ ch ms. (length ms ≤ buffered) × (ch < h.made)) h.clients

length-insert_le :
    (k : ℕ) (v : List Text) (m : Dict ℕ (List Text)) → length (insert k v m) ≤ length m + 1
unfolding insert
length-insert_le k v [] = omega arith
length-insert_le k v ((j, w) ∷ m) = ground (arith, length-insert_le k v m)

length-insert_eq :
    (k : ℕ) (u v : List Text) (m : Dict ℕ (List Text))
    → lookup k m ≡ some u
    → length (insert k v m) ≡ length m
unfolding insert lookup
length-insert_eq k u v [] e = absurd (ground (arith, e))
length-insert_eq k u v ((j, w) ∷ m) e = ground (arith, e, length-insert_eq k u v m)

length-delete_le : (k : ℕ) (m : Dict ℕ (List Text)) → length (delete k m) ≤ length m
unfolding delete
length-delete_le k [] = omega arith
length-delete_le k ((j, w) ∷ m) = ground (arith, length-delete_le k m)

length-adjust :
    (f : List Text → List Text) (m : Dict ℕ (List Text)) → length (adjust f m) ≡ length m
unfolding adjust
length-adjust f [] = refl
length-adjust f ((j, w) ∷ m) = ap suc (length-adjust f m)

length-offer_le :
    (b : Text) (ms : List Text) → length ms ≤ buffered → length (offer b ms) ≤ buffered
unfolding offer
length-offer_le b ms le = ground (arith, length-append ms (b ∷ []))

abbrev Held : ℕ → ℕ → List Text → Type 0
Held made ch ms = (length ms ≤ buffered) × (ch < made)

later-Held : (made : ℕ) (m : Dict ℕ (List Text)) → Every (Held made) m → Every (Held (made + 1)) m
later-Held made [] a = tt
later-Held made ((ch, ms) ∷ m) a = ((a.0.0, omega arith), later-Held made m a.1)

open_stream-InCap : (h : Hub) → InCap h → InCap (open_stream h).1
unfolding open_stream
open_stream-InCap h c = elim (Bool-cases (leb max_sse_clients (length h.clients))) [
  | inl full ↦
      rw (full, open_stream)
        (record { streams = c.streams; waiting = later-Held h.made h.clients c.waiting })
  | inr room ↦
      rw (room, open_stream)
        (record {
          streams = ground (arith, room, length-insert_le h.made [] h.clients);
          waiting =
              Every-insert (Held (h.made + 1)) h.made [] h.clients (omega arith, omega arith)
                (later-Held h.made h.clients c.waiting);
        })
]

take_message-InCap : (ch : ℕ) (h : Hub) → InCap h → InCap (take_message ch h).1
unfolding take_message
take_message-InCap ch h c = elim (Option-cases (lookup ch h.clients)) [
  | inl gone ↦ rw (gone, take_message) c
  | inr ([], quiet) ↦ rw (quiet, take_message) c
  | inr (b ∷ ms, found) ↦
      let (few, old) = Every-lookup (Held h.made) ch (b ∷ ms) h.clients c.waiting found in
      rw (found, take_message)
        (record {
          streams = omega (arith, length-insert_eq ch (b ∷ ms) ms h.clients found, c.streams);
          waiting = Every-insert (Held h.made) ch ms h.clients (omega arith, old) c.waiting;
        })
]

hub_step-InCap : (s : HubStep) (h : Hub) → InCap h → InCap (hub_step s h)
unfolding hub_step broadcast close_stream
hub_step-InCap (broadcasts b) h c = record {
  streams = rw (length-adjust (offer b) h.clients) c.streams;
  waiting =
      Every-adjust (Held h.made) (offer b) h.clients
        (λ ch ms held. (length-offer_le b ms held.0, held.1)) c.waiting;
}
hub_step-InCap opens h c = open_stream-InCap h c
hub_step-InCap (takes ch) h c = take_message-InCap ch h c
hub_step-InCap (closes ch) h c = record {
  streams = omega (arith, length-delete_le ch h.clients, c.streams);
  waiting = Every-delete (Held h.made) ch h.clients c.waiting;
}

hub_steps-InCap : (ss : List HubStep) (h : Hub) → InCap h → InCap (hub_run ss h)
unfolding hub_run
hub_steps-InCap [] h c = c
hub_steps-InCap (s ∷ ss) h c = hub_steps-InCap ss (hub_step s h) (hub_step-InCap s h c)

-- However states are sent and streams are opened, read and closed, at most 64 streams are open, at
-- most 4 messages wait in each, and the channel of the next stream is not one of theirs.
hub_run-InCap : (ss : List HubStep) → InCap (hub_run ss new_hub)
unfolding new_hub
hub_run-InCap ss = hub_steps-InCap ss new_hub (record { streams = omega arith; waiting = tt })

lookup-adjust :
    (f : List Text → List Text) (ch : ℕ) (m : Dict ℕ (List Text)) (ms : List Text)
    → lookup ch m ≡ some ms
    → lookup ch (adjust f m) ≡ some (f ms)
unfolding lookup adjust
lookup-adjust f ch [] ms e = absurd (ground (arith, e))
lookup-adjust f ch ((j, w) ∷ m) ms e = ground (arith, e, lookup-adjust f ch m ms)

abbrev pub broadcast_all : List Text → Hub → Hub
broadcast_all [] h = h
broadcast_all (b ∷ bs) h = broadcast_all bs (broadcast b h)

take_all : (n : ℕ) (xs : List Text) → length xs ≤ n → take n (xs ++ []) ≡ xs
take_all zero [] le = refl
take_all (suc n) [] le = refl
take_all zero (x ∷ xs) le = absurd (omega arith)
take_all (suc n) (x ∷ xs) le = ap (λ l. x ∷ l) (take_all n xs (omega arith))

take_first : (n : ℕ) (xs ys : List Text) → length xs ≡ n → take n (xs ++ ys) ≡ xs
take_first zero [] ys e = refl
take_first (suc n) [] ys e = absurd (omega arith)
take_first zero (x ∷ xs) ys e = absurd (omega arith)
take_first (suc n) (x ∷ xs) ys e = ap (λ l. x ∷ l) (take_first n xs ys (omega arith))

append_assoc : (xs : List Text) (y : Text) (zs : List Text) → (xs ++ y ∷ []) ++ zs ≡ xs ++ y ∷ zs
append_assoc [] y zs = refl
append_assoc (x ∷ xs) y zs = ap (λ l. x ∷ l) (append_assoc xs y zs)

-- A stream that reads nothing while states are sent keeps the first of them that fit, in order, after
-- what waited already: the first 4 of all. The later ones are lost to it, and nothing blocks.
pub slow_stream_keeps_first :
    (bs : List Text) (h : Hub) (ch : ℕ) (ms : List Text)
    → lookup ch h.clients ≡ some ms
    → length ms ≤ buffered
    → lookup ch (broadcast_all bs h).clients ≡ some (take buffered (ms ++ bs))
unfolding broadcast offer
slow_stream_keeps_first [] h ch ms e le = e ∙ ap some (sym (take_all buffered ms le))
slow_stream_keeps_first (b ∷ bs) h ch ms e le =
    let next = lookup-adjust (offer b) ch h.clients ms e in
    elim (Bool-cases (ltb (length ms) buffered)) [
      | inl room ↦
          let longer : offer b ms ≡ ms ++ b ∷ [] = rw (room, offer) in
          slow_stream_keeps_first bs (broadcast b h) ch (ms ++ b ∷ []) (next ∙ ap some longer)
            (ground (arith, room, length-append ms (b ∷ [])))
          ∙ ap (λ l. some (take buffered l)) (append_assoc ms b bs)
      | inr full ↦
          let same : offer b ms ≡ ms = rw (full, offer) in
          let len : length ms ≡ buffered = ground (arith, full) in
          slow_stream_keeps_first bs (broadcast b h) ch ms (next ∙ ap some same) le
          ∙ ap some (take_first buffered ms bs len ∙ sym (take_first buffered ms (b ∷ bs) len))
    ]
