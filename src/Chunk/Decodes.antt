-- ===== src/Chunk/Decodes.antt =====
-- A loader of lua-5.1.5/src/lundump.c against the bytes of the format: given the bytes it yields the value and
-- leaves what follows them, and given only a part of them it ends in the error "unexpected end".
use unitu_lua_test.Base.{
  ℕ, zero, suc, ◌/◌, ◌^◌, ◌≤◌, ◌<◌, ◌≡◌, refl, sym, ap, ◌∙◌, ◌≢◌, ◌⊎◌, inl, inr, true, false, ◌==◌,
  ltb, arith, List, [], ◌∷◌, ◌++◌, length, take, drop, take-append_left, drop-append_left,
  length-append,
}
use mathlib.Core.List.{append-nil, append_assoc}
use native.Mathlib.Nat.{pow-suc}
use unitu_lua_test.Chunk.{to_bytes, from_bytes}
use unitu_lua_test.Chunk.Load.{
  Result, ok, err, unexpected_end, Load, ◌>>=◌, return, load_block, check_int, load_char, load_int,
  load_number,
}
use unitu_lua_test.Zio.{Zio, read}
use unitu_lua_test.Zio.Read.{content, IsValid, read_enough, read_short}

module _ {A : Type 0} where
  -- The run ends in `a`, with `rest` still to be read.
  pub record Ends (r : Result A) (a : A) (rest : List ℕ) : Type 0 where
    pub left : Zio
    pub run : r ≡ ok a left
    pub valid : IsValid left
    pub rest_left : content left ≡ rest

  pub record Decodes (m : Load A) (xs : List ℕ) (a : A) : Type 0 where
    pub whole : (z : Zio) (rest : List ℕ) → IsValid z → content z ≡ xs ++ rest → Ends (m z) a rest
    pub cut :
        (z : Zio) (more : List ℕ)
        → IsValid z
        → more ≢ []
        → content z ++ more ≡ xs
        → m z ≡ err unexpected_end

-- Where a list that is split in two ways parts.
record IsPart (a x m : List ℕ) : Type 0 where
  tail : List ℕ
  proper : tail ≢ []
  joins : a ++ tail ≡ x

overlap :
    (a m x y : List ℕ)
    → m ≢ []
    → a ++ m ≡ x ++ y
    → IsPart a x m ⊎ ((b : List ℕ) × (a ≡ x ++ b) × (b ++ m ≡ y))
overlap a m [] y h e = inr (a, refl, e)
overlap [] m (x ∷ xs) y h e = inl (record { tail = x ∷ xs; proper = λ k. cc; joins = refl })
overlap (c ∷ a) m (x ∷ xs) y h e = elim (overlap a m xs y h (tail_eq e)) [
  | inl part ↦ inl (record {
    tail = part.tail;
    proper = part.proper;
    joins = rw (part.joins) (ap (λ t. t ∷ xs) (head_eq e));
  })
  | inr (b, p, q) ↦ inr (b, cc, q)
]
  where
    tail_eq : c ∷ (a ++ m) ≡ x ∷ (xs ++ y) → a ++ m ≡ xs ++ y
    tail_eq e = cc

    head_eq : c ∷ (a ++ m) ≡ x ∷ (xs ++ y) → c ≡ x
    head_eq e = cc

module _ {A : Type 0} where
  pub return-Decodes : (a : A) → Decodes (return a) [] a
  return-Decodes a = record {
    whole = λ z rest v e. record { left = z; run = refl; valid = v; rest_left = e };
    cut = λ z more v h e. absurd (h (no_tail (content z) more e));
  }
    where
      no_tail : (l more : List ℕ) → l ++ more ≡ [] → more ≡ []
      no_tail [] more e = e
      no_tail (c ∷ l) more e = cc

module _ {A B : Type 0} where
  pub bind-Decodes :
      {m : Load A} (f : A → Load B) {xs ys : List ℕ} {a : A} {b : B}
      → Decodes m xs a
      → Decodes (f a) ys b
      → Decodes (m >>= f) (xs ++ ys) b
  bind-Decodes {m} f {xs} {ys} {a} {b} d g = record {
    whole = λ z rest v e.
        let first = d.whole z (ys ++ rest) v (e ∙ append_assoc xs ys rest) in
        let second = g.whole first.left rest first.valid first.rest_left in
        record {
          left = second.left;
          run = rw (first.run, ◌>>=◌) second.run;
          valid = second.valid;
          rest_left = second.rest_left;
        };
    cut = λ z more v h e. elim (overlap (content z) more xs ys h e) [
      | inl part ↦ rw (d.cut z part.tail v part.proper part.joins, ◌>>=◌)
      | inr (b', p, q) ↦
          let first = d.whole z b' v p in
          rw (first.run, ◌>>=◌)
            (g.cut first.left more first.valid h (ap (λ t. t ++ more) first.rest_left ∙ q))
    ];
  }

  pub map-Decodes :
      {m : Load A} {xs : List ℕ} {a : A} (f : A → B)
      → Decodes m xs a
      → Decodes (m >>= λ x. return (f x)) xs (f a)
  map-Decodes {m} {xs} {a} f d =
      rw append-nil at (bind-Decodes (λ x. return (f x)) d (return-Decodes (f a)))

pub take_prefix : (n : ℕ) (xs rest : List ℕ) → n ≡ length xs → take n (xs ++ rest) ≡ xs
take_prefix n xs rest e = rw e (take-append_left xs rest)

pub drop_prefix : (n : ℕ) (xs rest : List ℕ) → n ≡ length xs → drop n (xs ++ rest) ≡ rest
drop_prefix n xs rest e = rw e (drop-append_left xs rest)

shorter : (l more xs : List ℕ) → more ≢ [] → l ++ more ≡ xs → length l < length xs
shorter l [] xs h e = absurd (h refl)
shorter l (c ∷ more) xs h e = omega (arith, ap length e, length-append l (c ∷ more))

-- The bytes themselves.
pub block-Decodes : (n : ℕ) (xs : List ℕ) → n ≡ length xs → Decodes (load_block n) xs xs
unfolding load_block
block-Decodes n xs size = record {
  whole = λ z rest v e.
      let fits : n ≤ length (content z) = omega (arith, ap length e, length-append xs rest, size) in
      let (missing, got, valid, left) = read_enough z n v fits in
      record {
        left = (read z n).2;
        run =
            rw missing
              (ap (λ b. ok b (read z n).2) (got ∙ ap (take n) e ∙ take_prefix n xs rest size));
        valid = valid;
        rest_left = left ∙ ap (drop n) e ∙ drop_prefix n xs rest size;
      };
  cut = λ z more v h e.
      let lacks : length (content z) < n = omega (arith, shorter (content z) more xs h e, size) in
      let (missing, got, valid) = read_short z n v lacks in
      let some_missing : ((read z n).0 == 0) ≡ false = ground (arith, missing) in rw some_missing;
}

pub length-to_bytes : (w x : ℕ) → length (to_bytes w x) ≡ w
unfolding to_bytes
length-to_bytes zero x = refl
length-to_bytes (suc w) x = ap suc (length-to_bytes w (x / 256))

-- A number that fits its bytes is read back from them.
pub from_bytes-to_bytes : (w x : ℕ) → x < 256 ^ w → from_bytes (to_bytes w x) ≡ x
unfolding to_bytes from_bytes
from_bytes-to_bytes zero x h = omega arith
from_bytes-to_bytes (suc w) x h = omega (arith, pow-suc 256 w, from_bytes-to_bytes w (x / 256))

pub char-Decodes : (x : ℕ) → x < 256 → Decodes load_char (to_bytes 1 x) x
unfolding load_char
char-Decodes x h =
    let d = map-Decodes from_bytes (block-Decodes 1 (to_bytes 1 x) (sym (length-to_bytes 1 x))) in
    rw (from_bytes-to_bytes 1 x h) at d

pub number-Decodes : (x : ℕ) → x < 2 ^ 64 → Decodes load_number (to_bytes 8 x) x
unfolding load_number
number-Decodes x h =
    let d = map-Decodes from_bytes (block-Decodes 8 (to_bytes 8 x) (sym (length-to_bytes 8 x))) in
    rw (from_bytes-to_bytes 8 x h) at d

check_int-Decodes : (x y : ℕ) → x ≡ y → y < 2 ^ 31 → Decodes (check_int x) [] y
unfolding check_int
check_int-Decodes x y e h =
    let small : ltb y (2 ^ 31) ≡ true = ground arith in rw (e, small) (return-Decodes y)

pub int-Decodes : (x : ℕ) → x < 2 ^ 31 → Decodes load_int (to_bytes 4 x) x
unfolding load_int
int-Decodes x h =
    let d = block-Decodes 4 (to_bytes 4 x) (sym (length-to_bytes 4 x)) in
    let fits = from_bytes-to_bytes 4 x (omega arith) in
    rw append-nil at (bind-Decodes (λ b. check_int (from_bytes b)) d (check_int-Decodes _ x fits h))
