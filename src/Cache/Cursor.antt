-- ===== src/Cache/Cursor.antt =====
-- egress/cache_writer.c: `load_cursor` and `save_cursor`, the file beside the cache.
use io_t_collector.Base.{
  ℕ, zero, suc, ◌+◌, ◌*◌, ◌/◌, ◌%◌, ◌^◌, ◌<◌, ◌≤◌, ◌≡◌, refl, ap, arith, Bool, false, List, [], ◌∷◌,
  ◌++◌, length, take, leb, Bool-cases, inl, inr, if◌then◌else◌, Option, none, some, length-take,
  leb→le,
}
use io_t_collector.Status.{Status, ok, err_io}
use native.Mathlib.Nat.{pow-suc}

-- The `k` low bytes of a number in the memory of a little-endian host, and their value.
abbrev pub memory_of : ℕ → ℕ → List ℕ
memory_of zero n = []
memory_of (suc k) n = n % 256 ∷ memory_of k (n / 256)

abbrev pub value_of : List ℕ → ℕ
value_of [] = 0
value_of (b ∷ bs) = b + 256 * value_of bs

-- `sizeof(off_t)`.
abbrev pub off_t_size : ℕ
off_t_size = 8

-- `CURSOR_FILE_SUFFIX`, ".cursor".
abbrev cursor_file_suffix : List ℕ
cursor_file_suffix = 46 ∷ 99 ∷ 117 ∷ 114 ∷ 115 ∷ 111 ∷ 114 ∷ []

-- The name without its final 0, as `snprintf` cuts it to the 256 bytes of `cursor_path`.
unfoldable pub cursor_path : List ℕ → List ℕ
cursor_path path = take 255 (path ++ cursor_file_suffix)

-- The cursor that is read; `none` is a file that `fopen` does not open.
unfoldable pub load_cursor : Option (List ℕ) → ℕ
load_cursor none = 0
load_cursor (some file) =
    if leb off_t_size (length file) then value_of (take off_t_size file) else 0

-- What `fopen` and `fwrite` answer, and the number of bytes that have reached the file in the end: the
-- results of `fflush` and `fsync` are not looked at.
pub record SaveAnswer : Type 0 where
  pub opened : Bool
  pub accepted : Bool
  pub stored : ℕ

-- The status with the file of the cursor after the call; "wb" empties it.
unfoldable pub save_cursor : ℕ → Option (List ℕ) → SaveAnswer → Status × Option (List ℕ)
save_cursor read_cursor file a =
    if a.opened
    then (
      if a.accepted then ok else err_io,
      some (take a.stored (memory_of off_t_size read_cursor)),
    )
    else (err_io, file)

memory_of-length : (k n : ℕ) → length (memory_of k n) ≡ k
memory_of-length zero n = refl
memory_of-length (suc k) n = ap suc (memory_of-length k (n / 256))

value_of-memory_of : (k n : ℕ) → n < 256 ^ k → value_of (memory_of k n) ≡ n
value_of-memory_of zero n below = omega (arith, below)
value_of-memory_of (suc k) n below =
    omega (arith, value_of-memory_of k (n / 256) (omega (arith, pow-suc 256 k)))

take_whole {ℓ} : {A : Type ℓ} (n : ℕ) (xs : List A) → length xs ≤ n → take n xs ≡ xs
take_whole zero [] h = refl
take_whole zero (x ∷ xs) h = absurd (omega (arith, h))
take_whole (suc n) [] h = refl
take_whole (suc n) (x ∷ xs) h = ap (λ t. x ∷ t) (take_whole n xs (omega (arith, h)))

-- A file that holds the whole image of a number.
load_whole :
    (n : ℕ) (file : List ℕ)
    → n < 2 ^ 64
    → file ≡ memory_of off_t_size n
    → load_cursor (some file) ≡ n
unfolding load_cursor
load_whole n file fits same = rw same (value_of-memory_of off_t_size n fits)

load_short : (file : List ℕ) → length file < off_t_size → load_cursor (some file) ≡ 0
unfolding load_cursor
load_short file short = ground arith

lt_of_not_leb : (a b : ℕ) → leb a b ≡ false → b < a
lt_of_not_leb a b h = ground arith

-- The cursor that is loaded from the bytes that have reached the file.
load_stored :
    (n stored : ℕ)
    → n < 2 ^ 64
    → load_cursor (some (take stored (memory_of off_t_size n)))
      ≡ (if leb off_t_size stored then n else 0)
load_stored n stored fits = elim (Bool-cases (leb off_t_size stored)) [
  | inl enough ↦ rw enough (
      load_whole n (take stored (memory_of off_t_size n)) fits (
        take_whole stored (memory_of off_t_size n)
          (omega (arith, memory_of-length off_t_size n, leb→le off_t_size stored enough))))
  | inr short ↦ rw short (
      load_short (take stored (memory_of off_t_size n)) (
        omega (
          arith,
          length-take stored (memory_of off_t_size n),
          memory_of-length off_t_size n,
          lt_of_not_leb off_t_size stored short,
        )))
]

-- After `save_cursor`, `load_cursor` finds the cursor if all its bytes have reached the file, and else 0,
-- whatever the status was; a file that `save_cursor` cannot open keeps what it held.
pub load_cursor-save_cursor :
    (n : ℕ) (file : Option (List ℕ)) (a : SaveAnswer)
    → n < 2 ^ 64
    → load_cursor (save_cursor n file a).1
      ≡ (if a.opened then (if leb off_t_size a.stored then n else 0) else load_cursor file)
unfolding save_cursor
load_cursor-save_cursor n file a fits = elim (Bool-cases a.opened) [
  | inl opened ↦ rw opened (load_stored n a.stored fits)
  | inr shut ↦ rw shut refl
]
