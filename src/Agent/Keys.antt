-- ===== src/Agent/Keys.antt =====
-- dns/internal/agent/agent.go: the idempotency keys that the agent makes from sixteen random bytes.
pub mod Unique
use Prim.Native.Nat.{bit_and, bit_or}
use nixos_kaiba_network.Prelude.{
  if◌then◌else◌, ℕ, zero, suc, ◌-◌, ◌/◌, ◌%◌, ◌<◌, ◌≡◌, refl, sym, ap, ◌∙◌, true, false, not, ◌&&◌,
  Option, none, some, [], ◌∷◌, ◌++◌, Bytes, All, All-append, All-map, any, length, take, arith, leb,
  ltb, Bool,
}
use nixos_kaiba_network.Prelude.Hex.{hex_digit, hex}
use nixos_kaiba_network.Controller.Request.{is_idempotency_key, is_key_character, is_alphanumeric}

-- The array that `rand.Read` fills.
pub record IdBytes : Type 0 where
  pub b0 : ℕ
  pub b1 : ℕ
  pub b2 : ℕ
  pub b3 : ℕ
  pub b4 : ℕ
  pub b5 : ℕ
  pub b6 : ℕ
  pub b7 : ℕ
  pub b8 : ℕ
  pub b9 : ℕ
  pub b10 : ℕ
  pub b11 : ℕ
  pub b12 : ℕ
  pub b13 : ℕ
  pub b14 : ℕ
  pub b15 : ℕ

abbrev pub listed : IdBytes → Bytes
listed v =
    v.b0 ∷ v.b1 ∷ v.b2 ∷ v.b3 ∷ v.b4 ∷ v.b5 ∷ v.b6 ∷ v.b7 ∷ v.b8 ∷ v.b9 ∷ v.b10 ∷ v.b11 ∷ v.b12
    ∷ v.b13 ∷ v.b14 ∷ v.b15 ∷ []

-- The version and the variant of a random UUID.
unfoldable pub stamp : IdBytes → IdBytes
stamp v = record v { b6 = bit_or (bit_and v.b6 0x0f) 0x40; b8 = bit_or (bit_and v.b8 0x3f) 0x80 }

abbrev drop : ℕ → Bytes → Bytes
drop zero s = s
drop (suc n) [] = []
drop (suc n) (c ∷ s) = drop n s

-- encoded[from:to]
abbrev pub slice : ℕ → ℕ → Bytes → Bytes
slice from to s = take (to - from) (drop from s)

abbrev dash : Bytes
dash = b'-' ∷ []

unfoldable pub grouped : Bytes → Bytes
grouped encoded =
    slice 0 8 encoded
    ++ dash
    ++ slice 8 12 encoded
    ++ dash
    ++ slice 12 16 encoded
    ++ dash
    ++ slice 16 20 encoded
    ++ dash
    ++ slice 20 32 encoded

-- `none` where the random source fails.
unfoldable pub random_id : Option IdBytes → Option Bytes
unfolding hex stamp grouped
random_id none = none
random_id (some value) = some (grouped (hex (listed (stamp value))))

-- A test of every number below a bound.
holds_below : (ℕ → Bool) → ℕ → Bool
holds_below test zero = true
holds_below test (suc bound) = if test bound then holds_below test bound else false

holds_below-at :
    (test : ℕ → Bool) (bound b : ℕ) → b < bound → holds_below test bound ≡ true → test b ≡ true
unfolding holds_below
holds_below-at test zero b small every = absurd (omega arith)
holds_below-at test (suc bound) b small every = ground (arith, holds_below-at test bound b)

-- Both stamped octets are octets.
abbrev stamps_octets : ℕ → Bool
stamps_octets b = ltb (bit_or (bit_and b 0x0f) 0x40) 256 && ltb (bit_or (bit_and b 0x3f) 0x80) 256

stamps_every_octet : holds_below stamps_octets 256 ≡ true
unfolding holds_below
stamps_every_octet = refl

stamps_octet : (b : ℕ) → b < 256 → stamps_octets b ≡ true
stamps_octet b small = holds_below-at stamps_octets 256 b small stamps_every_octet

abbrev pub AreBytes : Bytes → Type 0
AreBytes = All (λ b. b < 256)

pub stamp-AreBytes : (v : IdBytes) → AreBytes (listed v) → AreBytes (listed (stamp v))
unfolding stamp
stamp-AreBytes v h =
    let version : bit_or (bit_and v.b6 0x0f) 0x40 < 256 =
      ground (arith, stamps_octet v.b6 (omega arith)) in
    let variant : bit_or (bit_and v.b8 0x3f) 0x80 < 256 =
      ground (arith, stamps_octet v.b8 (omega arith)) in
    omega arith

-- A lower-case hexadecimal digit.
IsHex : ℕ → Type 0
IsHex c = is_alphanumeric c ≡ true

hex_digit-IsHex : (n : ℕ) → n < 16 → IsHex (hex_digit n)
unfolding hex_digit IsHex is_alphanumeric
hex_digit-IsHex n h = ground arith

hex-IsHex : (bytes : Bytes) → AreBytes bytes → All IsHex (hex bytes)
unfolding hex
hex-IsHex [] h = tt
hex-IsHex (b ∷ bytes) h = (
  hex_digit-IsHex (b / 16) (omega arith),
  (hex_digit-IsHex (b % 16) (omega arith), hex-IsHex bytes h.1),
)

IsKeyCharacter : ℕ → Type 0
IsKeyCharacter c = is_key_character c ≡ true

hex_in_key : (c : ℕ) → IsHex c → IsKeyCharacter c
unfolding IsHex IsKeyCharacter is_key_character
hex_in_key c h = ground arith

All-take : (n : ℕ) (s : Bytes) → All IsKeyCharacter s → All IsKeyCharacter (take n s)
All-take zero s h = tt
All-take (suc n) [] h = tt
All-take (suc n) (c ∷ s) h = (h.0, All-take n s h.1)

All-drop : (n : ℕ) (s : Bytes) → All IsKeyCharacter s → All IsKeyCharacter (drop n s)
All-drop zero s h = h
All-drop (suc n) [] h = tt
All-drop (suc n) (c ∷ s) h = All-drop n s h.1

All-slice : (from to : ℕ) (s : Bytes) → All IsKeyCharacter s → All IsKeyCharacter (slice from to s)
All-slice from to s h = All-take (to - from) (drop from s) (All-drop from s h)

grouped-IsKeyCharacter : (s : Bytes) → All IsKeyCharacter s → All IsKeyCharacter (grouped s)
unfolding grouped
grouped-IsKeyCharacter s h =
    joined _ _
      (joined _ _
        (joined _ _ (joined _ _ (All-slice 0 8 s h) (All-slice 8 12 s h)) (All-slice 12 16 s h))
        (All-slice 16 20 s h))
      (All-slice 20 32 s h)
  where
    joined :
        (front back : Bytes)
        → All IsKeyCharacter front
        → All IsKeyCharacter back
        → All IsKeyCharacter ((front ++ dash) ++ back)
    joined front back f b =
        All-append IsKeyCharacter (front ++ dash) back
          (All-append IsKeyCharacter front dash f
            (unfold IsKeyCharacter is_key_character in (refl, tt)))
          b

no_other : (s : Bytes) → All IsKeyCharacter s → any (λ d. not (is_key_character d)) s ≡ false
unfolding IsKeyCharacter
no_other [] h = refl
no_other (c ∷ s) h = ground (arith, no_other s h.1)

is_key_of :
    (c : ℕ) (rest : Bytes)
    → IsHex c
    → All IsKeyCharacter rest
    → leb (length rest) 127 ≡ true
    → is_idempotency_key (c ∷ rest) ≡ true
unfolding is_idempotency_key IsHex
is_key_of c rest h all short = rw (h, short, no_other rest all)

-- The identifiers that the agent makes from any sixteen random bytes have 36 characters, and the
-- controller accepts each as an idempotency key.
pub random_id-is_idempotency_key :
    (value : IdBytes) (key : Bytes)
    → AreBytes (listed value)
    → random_id (some value) ≡ some key
    → (length key ≡ 36) × (is_idempotency_key key ≡ true)
unfolding random_id
random_id-is_idempotency_key value key h made =
    let same : grouped (hex (listed (stamp value))) ≡ key = ground arith in
    rw (← same) (whole (stamp value) (stamp-AreBytes value h))
  where
    whole :
        (w : IdBytes)
        → AreBytes (listed w)
        → (length (grouped (hex (listed w))) ≡ 36)
          × (is_idempotency_key (grouped (hex (listed w))) ≡ true)
    whole w b =
        let digits = hex-IsHex (listed w) b in
        let all =
          grouped-IsKeyCharacter (hex (listed w)) (All-map (hex (listed w)) hex_in_key digits) in
        unfold hex grouped in (refl, is_key_of _ _ digits.0 all.1 refl)
