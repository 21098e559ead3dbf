-- ===== src/Object/ChunkId.antt =====
-- `luaO_chunkid` (lua-5.1.5/src/lobject.c): the name of a chunk, as messages show it, never
-- overruns the buffer of the caller.
use unitu_lua_test.Base.{
  ℕ, zero, suc, ◌+◌, ◌-◌, ◌%◌, ◌^◌, ◌≤◌, ◌<◌, ◌≡◌, ◌≢◌, ltb, if◌then◌else◌, inl, inr, Bool-cases,
  arith, List, [], ◌∷◌, ◌++◌, length, take, take-length, All, length-append, length-take,
  length-drop,
}
use unitu_lua_test.Base.Text.{codes}
use unitu_lua_test.Object.{line_length, chunkid_file, chunkid_text, chunkid}

line_length-le : (s : List ℕ) → line_length s ≤ length s
unfolding line_length
line_length-le [] = omega arith
line_length-le (c ∷ s) = ground (arith, line_length-le s)

room-eq : (n k : ℕ) → k ≤ n → n < 2 ^ 64 → (n + 2 ^ 64 - k) % 2 ^ 64 ≡ n - k
room-eq n k h fits = omega arith

chunkid_file-fits : (s : List ℕ) (n : ℕ) → 17 ≤ n → n < 2 ^ 64 → length (chunkid_file s n) < n
unfolding chunkid_file
chunkid_file-fits s n h fits =
    rw (room-eq n 8 (omega arith) fits) (elim (Bool-cases (ltb (n - 8) (length s))) [
      | inl long ↦ rw long (ground (arith, length-drop (length s - (n - 8)) s))
      | inr short ↦ rw short (ground arith)
    ])

-- The part of the source that the text form shows.
abbrev shown : ℕ → List ℕ → List ℕ
shown len s = if ltb len (length s) then take len s ++ codes "..." else s

shown-le : (len room : ℕ) (s : List ℕ) → len ≤ room → length (shown len s) ≤ room + 3
shown-le len room s h = elim (Bool-cases (ltb len (length s))) [
  | inl cut ↦ rw (cut, length-append) (omega (arith, length-take len s))
  | inr whole ↦ rw whole (ground arith)
]

chunkid_text-fits : (s : List ℕ) (n : ℕ) → 17 ≤ n → n < 2 ^ 64 → length (chunkid_text s n) < n
unfolding chunkid_text
chunkid_text-fits s n h fits =
    let room : ℕ = n - 17 in
    let len : ℕ = if ltb room (line_length s) then room else line_length s in
    let le : len ≤ room = ground arith in
    rw (room-eq n 17 h fits, length-append) (omega (arith, shown-le len room s le))

-- With a buffer of 17 bytes at least, the C string and the zero byte behind it fit the buffer, for
-- each of the three forms of a source.
pub chunkid-fits :
    (source : List ℕ) (bufflen : ℕ)
    → 17 ≤ bufflen
    → bufflen < 2 ^ 64
    → length (chunkid source bufflen) < bufflen
unfolding chunkid
chunkid-fits [] n h fits = chunkid_text-fits [] n h fits
chunkid-fits (c ∷ s) n h fits =
    ground (arith, length-take (n - 1) s, chunkid_file-fits s n, chunkid_text-fits (c ∷ s) n)

abbrev pub IsInLine : ℕ → Type 0
IsInLine c = (c ≢ 10) × (c ≢ 13)

take-IsInLine : (len : ℕ) (s : List ℕ) → len ≤ line_length s → All IsInLine (take len s)
unfolding line_length
take-IsInLine zero s h = tt
take-IsInLine (suc len) [] h = tt
take-IsInLine (suc len) (c ∷ s) h = ground (arith, take-IsInLine len s)

All-append {ℓ} :
    {A : Type ℓ} (P : A → Type 0) (xs ys : List A) → All P xs → All P ys → All P (xs ++ ys)
All-append P [] ys h k = k
All-append P (x ∷ xs) ys (h, hs) k = (h, All-append P xs ys hs k)

shown-IsInLine : (len : ℕ) (s : List ℕ) → len ≤ line_length s → All IsInLine (shown len s)
shown-IsInLine len s h = elim (Bool-cases (ltb len (length s))) [
  | inl cut ↦
      rw cut (All-append IsInLine (take len s) (codes "...") (take-IsInLine len s h) (omega arith))
  | inr whole ↦
      let all : take (length s) s ≡ s = take-length s in
      let line : length s ≤ line_length s = ground arith in
      rw whole (rw all at (take-IsInLine (length s) s line))
]

-- The name of a source that is the text of a chunk, with neither `=` nor `@` in front, is one line: it holds no line feed and
-- no carriage return.
pub chunkid-IsInLine :
    (c : ℕ) (source : List ℕ) (bufflen : ℕ)
    → c ≢ b'='
    → c ≢ b'@'
    → All IsInLine (chunkid (c ∷ source) bufflen)
unfolding chunkid
chunkid-IsInLine c source bufflen h k =
    let s = c ∷ source in
    let room : ℕ = (bufflen + 2 ^ 64 - 17) % 2 ^ 64 in
    let len : ℕ = if ltb room (line_length s) then room else line_length s in
    let text =
      All-append IsInLine (shown len s) (codes "\"]") (shown-IsInLine len s (ground arith))
        (omega arith) in
    ground (arith, text)
