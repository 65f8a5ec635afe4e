-- ===== src/Storage/Header/Bits.antt =====
-- The bitmap as a function from slots to Booleans (komfydb/storage/heap_page.cc).
use Prim.Native.Nat.{bit_and, bit_or}
use komfy_db.Base.{
  ltb→lt, ==_refl, ==_iff, ◌∙◌, ℕ, zero, suc, ◌-◌, ◌/◌, ◌%◌, ◌^◌, ◌<◌, ◌≡◌, refl, ap, ◌≢◌, inl, inr,
  Bool, true, false, not, ◌&&◌, ◌||◌, [], ◌∷◌, some, arith, ◌==◌, ltb, Bytes, if◌then◌else◌,
  get_elem?, get_or, set, length, length-set, Bool-cases, replicate,
}
use komfy_db.Base.Int.{pos}
use komfy_db.Base.Status.{ok}
use komfy_db.Storage.Header.{test_bit, tuple_present, mark_occupied, mark_free}

-- The bit of slot `i`.
abbrev pub bit : Bytes → ℕ → Bool
bit header i = test_bit (get_or header (i / 8) 0) (i % 8)

abbrev pub AreBytes : Bytes → Type 0
AreBytes [] = Unit
AreBytes (b ∷ bs) = (b < 256) × AreBytes bs

-- a test that holds at each number below the bound
holds_below : (ℕ → Bool) → ℕ → Bool
holds_below test zero = true
holds_below test (suc bound) = holds_below test bound && test bound

holds_below_sound :
    (test : ℕ → Bool) (bound k : ℕ) → k < bound → holds_below test bound ≡ true → test k ≡ true
unfolding holds_below
holds_below_sound test zero k lt h = absurd (omega arith)
holds_below_sound test (suc bound) k lt h = ground (arith, holds_below_sound test bound k)

abbrev same : Bool → Bool → Bool
same true b = b
same false b = not b

abbrev for_bits : (ℕ → ℕ → ℕ → Bool) → Bool
for_bits p = holds_below (λ b. holds_below (λ k. holds_below (p b k) 8) 8) 256

for_bits_sound :
    (p : ℕ → ℕ → ℕ → Bool) (b k m : ℕ)
    → b < 256
    → k < 8
    → m < 8
    → for_bits p ≡ true
    → p b k m ≡ true
for_bits_sound p b k m hb hk hm h = holds_below_sound (p b k) 8 m hm (
    holds_below_sound (λ k. holds_below (p b k) 8) 8 k hk
      (holds_below_sound (λ b. holds_below (λ k. holds_below (p b k) 8) 8) 256 b hb h))

abbrev occupy_law : ℕ → ℕ → ℕ → Bool
occupy_law b k m =
    same (test_bit (bit_or b (2 ^ k)) m) ((k == m) || test_bit b m) && ltb (bit_or b (2 ^ k)) 256

abbrev free_law : ℕ → ℕ → ℕ → Bool
free_law b k m =
    same (test_bit (bit_and b (255 - 2 ^ k)) m) (not (k == m) && test_bit b m)
    && ltb (bit_and b (255 - 2 ^ k)) 256

occupy_table : for_bits occupy_law ≡ true
unfolding holds_below
occupy_table = refl

free_table : for_bits free_law ≡ true
unfolding holds_below
free_table = refl

same-eq : (a b : Bool) → same a b ≡ true → a ≡ b
same-eq true b h = ground arith
same-eq false b h = ground arith

and-parts : (a b : Bool) → (a && b) ≡ true → (a ≡ true) × (b ≡ true)
and-parts true b h = (refl, h)
and-parts false b h = ground arith

occupy_byte :
    (b k m : ℕ)
    → b < 256
    → k < 8
    → m < 8
    → (test_bit (bit_or b (2 ^ k)) m ≡ ((k == m) || test_bit b m)) × (bit_or b (2 ^ k) < 256)
occupy_byte b k m hb hk hm =
    let both = and-parts _ _ (for_bits_sound occupy_law b k m hb hk hm occupy_table) in
    (same-eq _ _ both.0, ltb→lt _ _ both.1)

free_byte :
    (b k m : ℕ)
    → b < 256
    → k < 8
    → m < 8
    → (test_bit (bit_and b (255 - 2 ^ k)) m ≡ (not (k == m) && test_bit b m))
      × (bit_and b (255 - 2 ^ k) < 256)
free_byte b k m hb hk hm =
    let both = and-parts _ _ (for_bits_sound free_law b k m hb hk hm free_table) in
    (same-eq _ _ both.0, ltb→lt _ _ both.1)

get_elem?-get_or : (xs : Bytes) (i : ℕ) → i < length xs → get_elem? xs i ≡ some (get_or xs i 0)
get_elem?-get_or [] i h = elim h [ ]
get_elem?-get_or (x ∷ xs) zero h = refl
get_elem?-get_or (x ∷ xs) (suc i) h = get_elem?-get_or xs i (omega arith)

get_or-set :
    (xs : Bytes) (i j v : ℕ)
    → i < length xs
    → get_or (set xs i v) j 0 ≡ (if i == j then v else get_or xs j 0)
get_or-set [] i j v h = elim h [ ]
get_or-set (x ∷ xs) zero zero v h = refl
get_or-set (x ∷ xs) zero (suc j) v h = ground arith
get_or-set (x ∷ xs) (suc i) zero v h = ground arith
get_or-set (x ∷ xs) (suc i) (suc j) v h = ground (arith, get_or-set xs i j v)

AreBytes-get_or : (xs : Bytes) (i : ℕ) → AreBytes xs → get_or xs i 0 < 256
AreBytes-get_or [] i h = omega arith
AreBytes-get_or (x ∷ xs) zero h = h.0
AreBytes-get_or (x ∷ xs) (suc i) h = AreBytes-get_or xs i h.1

AreBytes-set : (xs : Bytes) (i v : ℕ) → v < 256 → AreBytes xs → AreBytes (set xs i v)
AreBytes-set [] i v hv h = tt
AreBytes-set (x ∷ xs) zero v hv h = (hv, h.1)
AreBytes-set (x ∷ xs) (suc i) v hv h = (h.0, AreBytes-set xs i v hv h.1)

-- Within the bitmap `TuplePresent` reads the slot's bit.
pub tuple_present-bit :
    (header : Bytes) (i : ℕ)
    → i / 8 < length header
    → tuple_present header (pos i) ≡ ok (bit header i)
unfolding tuple_present
tuple_present-bit header i h = rw (get_elem?-get_or header (i / 8) h)

-- What a change of slot `i` to `v` makes of a bitmap.
pub record Updates (header : Bytes) (i : ℕ) (v : Bool) (header' : Bytes) : Type 0 where
  pub same_length : length header' ≡ length header
  pub bytes : AreBytes header'
  pub slot : bit header' i ≡ v
  pub others : (j : ℕ) → i ≢ j → bit header' j ≡ bit header j

byte-Updates :
    (header : Bytes) (i v : ℕ) (b : Bool)
    → i / 8 < length header
    → AreBytes header
    → v < 256
    → test_bit v (i % 8) ≡ b
    → ((m : ℕ) → m < 8 → i % 8 ≢ m → test_bit v m ≡ test_bit (get_or header (i / 8) 0) m)
    → Updates header i b (set header (i / 8) v)
byte-Updates header i v b h bytes hv here there = record {
  same_length = length-set header (i / 8) v;
  bytes = AreBytes-set header (i / 8) v hv bytes;
  slot = rw (get_or-set header (i / 8) (i / 8) v h, ==_refl (i / 8)) here;
  others = λ j ne. elim (Bool-cases (i / 8 == j / 8)) [
    | inl e ↦
        rw (get_or-set header (i / 8) (j / 8) v h, e)
          (there (j % 8) (omega arith) (λ k. ne (same_slot i j e k))
            ∙ ap (λ n. test_bit (get_or header n 0) (j % 8)) ((==_iff _ _).0 e))
    | inr e ↦ rw (get_or-set header (i / 8) (j / 8) v h, e) refl
  ];
}
  where
    same_slot : (i j : ℕ) → (i / 8 == j / 8) ≡ true → i % 8 ≡ j % 8 → i ≡ j
    same_slot i j e k = omega (arith, (==_iff (i / 8) (j / 8)).0 e)

-- `MarkOccupied` succeeds within the bitmap, sets the slot's bit and leaves every other bit.
pub mark_occupied-Updates :
    (header : Bytes) (i : ℕ)
    → i / 8 < length header
    → AreBytes header
    → (header' : Bytes) × (mark_occupied header (pos i) ≡ ok header')
      × Updates header i true header'
unfolding mark_occupied
mark_occupied-Updates header i h bytes =
    let b = get_or header (i / 8) 0 in
    let hb : b < 256 = AreBytes-get_or header (i / 8) bytes in
    (
      set header (i / 8) (bit_or b (2 ^ (i % 8))),
      rw (get_elem?-get_or header (i / 8) h),
      byte-Updates header i _ true h bytes
          (occupy_byte b (i % 8) 0 hb (omega arith) (omega arith)).1
          (ground (arith, occupy_byte b (i % 8) (i % 8) hb, ==_refl (i % 8)))
          (λ m hm ne. ground (arith, occupy_byte b (i % 8) m hb)),
    )

-- `MarkFree` succeeds within the bitmap, clears the slot's bit and leaves every other bit.
pub mark_free-Updates :
    (header : Bytes) (i : ℕ)
    → i / 8 < length header
    → AreBytes header
    → (header' : Bytes) × (mark_free header (pos i) ≡ ok header') × Updates header i false header'
unfolding mark_free
mark_free-Updates header i h bytes =
    let b = get_or header (i / 8) 0 in
    let hb : b < 256 = AreBytes-get_or header (i / 8) bytes in
    (
      set header (i / 8) (bit_and b (255 - 2 ^ (i % 8))),
      rw (get_elem?-get_or header (i / 8) h),
      byte-Updates header i _ false h bytes (free_byte b (i % 8) 0 hb (omega arith) (omega arith)).1
          (ground (arith, free_byte b (i % 8) (i % 8) hb, ==_refl (i % 8)))
          (λ m hm ne. ground (arith, free_byte b (i % 8) m hb)),
    )

zero_law : (k : ℕ) → k < 8 → test_bit 0 k ≡ false
unfolding holds_below
zero_law k h = ground (arith, holds_below_sound (λ k. not (test_bit 0 k)) 8 k h refl)

-- no bit of a bitmap of zeros is set
pub bit-replicate : (n j : ℕ) → bit (replicate n 0) j ≡ false
bit-replicate n j = rw (zeros n (j / 8)) (zero_law (j % 8) (omega arith))
  where
    zeros : (n i : ℕ) → get_or (replicate {A = ℕ} n 0) i 0 ≡ 0
    zeros zero i = refl
    zeros (suc n) zero = refl
    zeros (suc n) (suc i) = zeros n i

pub AreBytes-replicate : (n : ℕ) → AreBytes (replicate n 0)
AreBytes-replicate zero = tt
AreBytes-replicate (suc n) = (omega arith, AreBytes-replicate n)
