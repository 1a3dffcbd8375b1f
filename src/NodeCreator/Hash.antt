-- ===== src/NodeCreator/Hash.antt =====
-- cmd/node-creator/main.go: the hash of a name and what is drawn from it. A uint32 is a number below
-- 2 ^ 32, and each operation wraps.
pub mod Spread
use Prim.Native.Nat.{bit_xor}
use bigfleet_demo.Common.{
  ℕ, zero, suc, ◌+◌, ◌-◌, ◌*◌, ◌/◌, ◌%◌, [], ◌∷◌, ◌++◌, Text, codes, leb, ltb, if◌then◌else◌, take,
  drop, ◌≡◌, refl,
}
use bigfleet_demo.Common.Decimal.{decimal}
use bigfleet_demo.Host.State.{second}

abbrev pub u32 : ℕ
u32 = 4_294_967_296

unfoldable pub fnv_from : ℕ → Text → ℕ
fnv_from h [] = h
fnv_from h (c ∷ s) = fnv_from ((bit_xor h c * 16_777_619) % u32) s

unfoldable pub fnv32 : Text → ℕ
unfolding fnv_from
fnv32 s = fnv_from 2_166_136_261 s

-- The character of `hexd` for a number below 16.
unfoldable pub hex_digit : ℕ → ℕ
hex_digit d = if ltb d 10 then b'0' + d else b'a' + (d - 10)

-- The loop of `randHex`; `(h >> 24) & 0xf` is the digit.
unfoldable pub hex_from : ℕ → ℕ → Text
unfolding hex_digit
hex_from h zero = []
hex_from h (suc n) =
    let h' = (h * 1_664_525 + 1_013_904_223) % u32 in
    hex_digit (h' / 16_777_216 % 16) ∷ hex_from h' n

unfoldable pub rand_hex : Text → ℕ → Text
unfolding fnv32 hex_from
rand_hex seed n = hex_from (fnv32 seed) n

-- `h[from:to]`
unfoldable pub slice : ℕ → ℕ → Text → Text
slice from to h = take (to - from) (drop from h)

unfoldable pub uuid_from : Text → Text
unfolding rand_hex slice
uuid_from seed =
    let h = rand_hex seed 32 in
    slice 0 8 h
    ++ (b'-'
        ∷ (slice 8 12 h
            ++ (b'-' ∷ (slice 12 16 h ++ (b'-' ∷ (slice 16 20 h ++ (b'-' ∷ slice 20 32 h)))))))

-- `10.%d.%d.%d` of `(h>>16)&0x3f`, `(h>>8)&0xff` and `(h&0x7f)+1`.
unfoldable pub internal_ip : Text → Text
unfolding fnv32
internal_ip name =
    let h = fnv32 name in
    codes "10."
    ++ (decimal (h / 65_536 % 64)
        ++ (b'.' ∷ (decimal (h / 256 % 256) ++ (b'.' ∷ decimal (h % 128 + 1)))))

pub record Dwell : Type 0 where
  pub min : ℕ
  pub max : ℕ

-- A duration between `min` and `max`, the same for each call with one name.
unfoldable pub dwell_for : Dwell → Text → ℕ
dwell_for d up_name =
    let span_sec = (d.max - d.min) / second in
    if leb d.max d.min
    then d.min
    else if leb span_sec 0
    then d.min
    else d.min + fnv32 up_name % span_sec * second

hash_of_a : fnv32 (codes "a") ≡ 0xe40c_292c
unfolding fnv32 fnv_from
hash_of_a = refl
