-- ===== src/Persist/BinaryReader/Laws.antt =====
-- A read takes what stands at the cursor; what was written is read back.
use my_no_sql_server_grpc.Base.{
  ℕ, ◌+◌, ◌^◌, ◌<◌, ◌≡◌, refl, ap, sym, ◌∙◌, arith, List, ◌++◌, length, take, drop, length-append,
  take-append, drop-append, All, All-prefix, All-suffix, append_assoc, take-append-drop,
  length-take,
}
use native.Mathlib.Nat.{mod-eq_of_lt}
use my_no_sql_server_grpc.Base.Result.{ok, >>=-eq-ok}
use my_no_sql_server_grpc.Base.Word.{
  to_le_bytes, from_le_bytes, length-to_le_bytes, from_le_bytes-to_le_bytes, IsByte,
  to_le_bytes-from_le_bytes, from_le_bytes-lt,
}
use my_no_sql_server_grpc.Persist.BinaryReader.{
  BinaryReader, read_bytes, read_u32, read_u64, read_u32_prefixed_bytes, write_u32_prefixed_bytes,
}

-- The reader over `done ++ rest` with its cursor behind `done`.
abbrev pub at : List ℕ → List ℕ → BinaryReader
at done rest = record { src = done ++ rest; pos = length done }

-- The bytes of a source that a `usize` can count.
abbrev pub Fits : List ℕ → Type 0
Fits src = length src < 2 ^ 64

read_bytes-at :
    (done bytes rest : List ℕ)
    → Fits (done ++ (bytes ++ rest))
    → read_bytes (length bytes) (at done (bytes ++ rest)) ≡ ok (bytes, at (done ++ bytes) rest)
unfolding read_bytes
read_bytes-at done bytes rest fits =
    rw
      (
        drop-append (length done) done (bytes ++ rest) refl,
        take-append (length bytes) bytes rest refl,
      )
      (ground (
        arith,
        length-append done (bytes ++ rest),
        length-append bytes rest,
        length-append done bytes,
        append_assoc done bytes rest,
      ))

read_word-at :
    (n x : ℕ) (done rest : List ℕ)
    → Fits (done ++ (to_le_bytes n x ++ rest))
    → read_bytes n (at done (to_le_bytes n x ++ rest))
      ≡ ok (to_le_bytes n x, at (done ++ to_le_bytes n x) rest)
read_word-at n x done rest fits =
    ap (λ (k : ℕ). read_bytes k (at done (to_le_bytes n x ++ rest))) (sym (length-to_le_bytes n x))
    ∙ read_bytes-at done (to_le_bytes n x) rest fits

pub read_u32-at :
    (x : ℕ) (done rest : List ℕ)
    → x < 2 ^ 32
    → Fits (done ++ (to_le_bytes 4 x ++ rest))
    → read_u32 (at done (to_le_bytes 4 x ++ rest)) ≡ ok (x, at (done ++ to_le_bytes 4 x) rest)
unfolding read_u32
read_u32-at x done rest h fits =
    rw (read_word-at 4 x done rest fits, from_le_bytes-to_le_bytes 4 x (omega arith))

pub read_u64-at :
    (x : ℕ) (done rest : List ℕ)
    → x < 2 ^ 64
    → Fits (done ++ (to_le_bytes 8 x ++ rest))
    → read_u64 (at done (to_le_bytes 8 x ++ rest)) ≡ ok (x, at (done ++ to_le_bytes 8 x) rest)
unfolding read_u64
read_u64-at x done rest h fits =
    rw (read_word-at 8 x done rest fits, from_le_bytes-to_le_bytes 8 x (omega arith))

-- What `write_u32_prefixed_bytes` appends.
abbrev pub prefixed : List ℕ → List ℕ
prefixed bytes = to_le_bytes 4 (length bytes) ++ bytes

pub write_u32_prefixed_bytes-prefixed :
    (dest src : List ℕ)
    → length src < 2 ^ 32
    → write_u32_prefixed_bytes dest src ≡ dest ++ prefixed src
unfolding write_u32_prefixed_bytes
write_u32_prefixed_bytes-prefixed dest src h =
    rw (mod-eq_of_lt h) (append_assoc dest (to_le_bytes 4 (length src)) src)

pub read_u32_prefixed_bytes-at :
    (bytes done rest : List ℕ)
    → length bytes < 2 ^ 32
    → Fits (done ++ (prefixed bytes ++ rest))
    → read_u32_prefixed_bytes (at done (prefixed bytes ++ rest))
      ≡ ok (bytes, at (done ++ prefixed bytes) rest)
unfolding read_u32_prefixed_bytes
read_u32_prefixed_bytes-at bytes done rest h fits =
    let n = to_le_bytes 4 (length bytes) in
    let fits' : Fits ((done ++ n) ++ (bytes ++ rest)) =
      rw (append_assoc done n (bytes ++ rest), ← append_assoc n bytes rest) fits in
    rw (
      append_assoc n bytes rest,
      read_u32-at (length bytes) done (bytes ++ rest) h (rw (append_assoc n bytes rest) at fits),
      read_bytes-at (done ++ n) bytes rest fits',
      append_assoc done n bytes,
    )

-- The other way round: what a successful read of `n` bytes says of the source.
record Took (n : ℕ) (done rest bytes : List ℕ) (r : BinaryReader) : Type 0 where
  pub after : List ℕ
  pub split : rest ≡ bytes ++ after
  pub moved : r ≡ at (done ++ bytes) after
  pub taken : length bytes ≡ n

read_bytes-Took :
    (n : ℕ) (done rest bytes : List ℕ) (r : BinaryReader)
    → read_bytes n (at done rest) ≡ ok (bytes, r)
    → Took n done rest bytes r
unfolding read_bytes
read_bytes-Took n done rest bytes r h =
    let raw : take n (drop (length done) (done ++ rest)) ≡ bytes = ground arith in
    let e : take n rest ≡ bytes = rw (drop-append (length done) done rest refl) at raw in
    let split : rest ≡ bytes ++ drop n rest = rw (← e) (sym (take-append-drop n rest)) in
    let taken : length bytes ≡ n =
      ground (arith, length-append done rest, ap length e, length-take n rest) in
    let src' : r.src ≡ done ++ rest = ground arith in
    let pos' : r.pos ≡ length done + n = ground arith in
    record {
      after = drop n rest;
      split = split;
      moved = ground (
        arith,
        append_assoc done bytes (drop n rest),
        length-append done bytes,
        ap (λ (t : List ℕ). done ++ t) split,
      );
      taken = taken;
    }

-- A successful read found `written` at the cursor and stands behind it now.
pub record ReadsOff (done rest written : List ℕ) (r : BinaryReader) : Type 0 where
  pub after : List ℕ
  pub split : rest ≡ written ++ after
  pub moved : r ≡ at (done ++ written) after
  pub are_bytes : All IsByte after

read_word-ReadsOff :
    (n : ℕ) (done rest bytes : List ℕ) (r : BinaryReader)
    → All IsByte rest
    → read_bytes n (at done rest) ≡ ok (bytes, r)
    → (from_le_bytes bytes < 256 ^ n) × ReadsOff done rest (to_le_bytes n (from_le_bytes bytes)) r
read_word-ReadsOff n done rest bytes r h e =
    let t = read_bytes-Took n done rest bytes r e in
    let here : All IsByte bytes = All-prefix IsByte bytes t.after (rw t.split at h) in
    let same : to_le_bytes n (from_le_bytes bytes) ≡ bytes =
      rw t.taken at (to_le_bytes-from_le_bytes bytes here) in
    (
      rw t.taken at (from_le_bytes-lt bytes here),
      rw same (record {
        after = t.after;
        split = t.split;
        moved = t.moved;
        are_bytes = All-suffix IsByte bytes t.after (rw t.split at h);
      }),
    )

pub read_u32-ReadsOff :
    (done rest : List ℕ) (x : ℕ) (r : BinaryReader)
    → All IsByte rest
    → read_u32 (at done rest) ≡ ok (x, r)
    → (x < 2 ^ 32) × ReadsOff done rest (to_le_bytes 4 x) r
unfolding read_u32
read_u32-ReadsOff done rest x r h e =
    let (p, run, same) = >>=-eq-ok (read_bytes 4 (at done rest)) _ e in
    let ex : from_le_bytes p.0 ≡ x = ground arith in
    let er : p.1 ≡ r = ground arith in
    let (small, off) = read_word-ReadsOff 4 done rest p.0 p.1 h run in
    rw (← ex, ← er) (omega arith, off)

pub read_u64-ReadsOff :
    (done rest : List ℕ) (x : ℕ) (r : BinaryReader)
    → All IsByte rest
    → read_u64 (at done rest) ≡ ok (x, r)
    → (x < 2 ^ 64) × ReadsOff done rest (to_le_bytes 8 x) r
unfolding read_u64
read_u64-ReadsOff done rest x r h e =
    let (p, run, same) = >>=-eq-ok (read_bytes 8 (at done rest)) _ e in
    let ex : from_le_bytes p.0 ≡ x = ground arith in
    let er : p.1 ≡ r = ground arith in
    let (small, off) = read_word-ReadsOff 8 done rest p.0 p.1 h run in
    rw (← ex, ← er) (omega arith, off)

pub read_u32_prefixed_bytes-ReadsOff :
    (done rest bytes : List ℕ) (r : BinaryReader)
    → All IsByte rest
    → read_u32_prefixed_bytes (at done rest) ≡ ok (bytes, r)
    → (length bytes < 2 ^ 32) × ReadsOff done rest (prefixed bytes) r
unfolding read_u32_prefixed_bytes
read_u32_prefixed_bytes-ReadsOff done rest bytes r h e =
    let (p, run, second) = >>=-eq-ok (read_u32 (at done rest)) _ e in
    let (small, off) = read_u32-ReadsOff done rest p.0 p.1 h run in
    let n = to_le_bytes 4 p.0 in
    let t = read_bytes-Took p.0 (done ++ n) off.after bytes r (rw off.moved at second) in
    let same : to_le_bytes 4 (length bytes) ≡ n = rw t.taken in
    (
      rw t.taken small,
      record {
        after = t.after;
        split = rw (same, append_assoc n bytes t.after, ← t.split) (off.split);
        moved = rw (same, ← append_assoc done n bytes) (t.moved);
        are_bytes = All-suffix IsByte bytes t.after (rw t.split at off.are_bytes);
      },
    )

-- One read after another.
pub ReadsOff-trans :
    (done rest first second : List ℕ) (r r' : BinaryReader) (a : ReadsOff done rest first r)
    → ReadsOff (done ++ first) a.after second r'
    → ReadsOff done rest (first ++ second) r'
ReadsOff-trans done rest first second r r' a b = record {
  after = b.after;
  split =
      a.split ∙ ap (λ (t : List ℕ). first ++ t) b.split ∙ sym (append_assoc first second b.after);
  moved = b.moved ∙ ap (λ (t : List ℕ). at t b.after) (append_assoc done first second);
  are_bytes = b.are_bytes;
}
