-- ===== src/OpLog/Codec.antt =====
-- What is saved is what is loaded again.
use mathlib.Core.List.{append_assoc}
use eparallel.Common.{
  ℕ, zero, suc, ◌+◌, ◌-◌, ◌/◌, ◌%◌, ◌^◌, ◌<◌, ◌≤◌, ◌≡◌, refl, ap, sym, ◌∙◌, some, List, ◌++◌, ltb,
  length, take, drop, true, false, arith, take-append_le, drop-append_ge, length-append, take_all,
}
use eparallel.OpLog.{
  Op, le_bytes, of_le, load_int, loaded, load_op_from_buf, save_int, save_op_to_buf,
}

-- A number that `width` bytes hold.
abbrev pub Fits : ℕ → ℕ → Type 0
Fits zero n = n ≡ 0
Fits (suc width) n = Fits width (n / 256)

pub length-le_bytes : (width n : ℕ) → length (le_bytes width n) ≡ width
unfolding le_bytes
length-le_bytes zero n = refl
length-le_bytes (suc width) n = ap suc (length-le_bytes width (n / 256))

of_le-le_bytes : (width n : ℕ) → Fits width n → of_le (le_bytes width n) ≡ n
unfolding le_bytes of_le
of_le-le_bytes zero n h = sym h
of_le-le_bytes (suc width) n h = omega (arith, of_le-le_bytes width (n / 256) h)

pub load_int-le_bytes :
    (width n : ℕ) (rest : List ℕ)
    → Fits width n
    → load_int width (le_bytes width n ++ rest) ≡ some (n, rest)
unfolding load_int
load_int-le_bytes width n rest h =
    let l = length-le_bytes width n in
    let z : width - width ≡ 0 = omega arith in
    let t : take width (le_bytes width n ++ rest) ≡ le_bytes width n =
      take-append_le width (le_bytes width n) rest (omega (arith, l))
      ∙ take_all width (le_bytes width n) (omega (arith, l)) in
    let d : drop width (le_bytes width n ++ rest) ≡ rest =
      drop-append_ge width (le_bytes width n) rest (omega (arith, l)) ∙ rw (l, z) refl in
    let long : ltb (length (le_bytes width n ++ rest)) width ≡ false =
      ground (arith, length-append (le_bytes width n) rest, l) in
    rw long (rw (t, d, of_le-le_bytes width n h) refl)

pub record InRange (o : Op) : Type 0 where
  pub cmd_fits : o.cmd < 2 ^ 32
  pub op_id_fits : o.op_id < 2 ^ 64
  pub log_file_id_fits : o.log_file_id < 2 ^ 32
  pub task_id_fits : o.task_id < 2 ^ 64
  pub cont_fits : length o.cont < 2 ^ 31

pub Fits-int : (n : ℕ) → n < 2 ^ 32 → Fits 4 n
Fits-int n h = omega arith

Fits-int64 : (n : ℕ) → n < 2 ^ 64 → Fits 8 n
Fits-int64 n h = omega arith

-- The bytes of an operation.
abbrev pub encoded : Op → List ℕ
encoded o =
    le_bytes 4 o.cmd
    ++ (le_bytes 8 o.op_id
        ++ (le_bytes 4 o.log_file_id
            ++ (le_bytes 8 o.task_id ++ (le_bytes 4 (length o.cont) ++ o.cont))))

save_int-Room :
    (width n len : ℕ) → width ≤ len → save_int width n len ≡ some (le_bytes width n, len - width)
unfolding save_int
save_int-Room width n len h = ground arith

-- The header takes 28 bytes.
pub save_op_to_buf-Room :
    (o : Op) (len : ℕ)
    → InRange o
    → 28 + length o.cont ≤ len
    → save_op_to_buf o len ≡ some (encoded o, len - (28 + length o.cont))
unfolding save_op_to_buf
save_op_to_buf-Room o len r h =
    let e1 = save_int-Room 4 o.cmd len (omega (arith, h)) in
    let e2 = save_int-Room 8 o.op_id (len - 4) (omega (arith, h)) in
    let e3 = save_int-Room 4 o.log_file_id (len - 4 - 8) (omega (arith, h)) in
    let e4 = save_int-Room 8 o.task_id (len - 4 - 8 - 4) (omega (arith, h)) in
    let z : length o.cont % 2 ^ 32 ≡ length o.cont = omega (arith, r.cont_fits) in
    let e5 : save_int 4 (length o.cont % 2 ^ 32) (len - 4 - 8 - 4 - 8)
        ≡ some (le_bytes 4 (length o.cont), len - 4 - 8 - 4 - 8 - 4) =
      save_int-Room 4 (length o.cont % 2 ^ 32) (len - 4 - 8 - 4 - 8) (omega (arith, h))
      ∙ rw z refl in
    let room : ltb (len - 4 - 8 - 4 - 8 - 4) (length o.cont) ≡ false = ground (arith, h) in
    let left : len - 4 - 8 - 4 - 8 - 4 - length o.cont ≡ len - (28 + length o.cont) = omega arith in
    rw (e1, save_op_to_buf)
      (rw (e2, save_op_to_buf)
        (rw (e3, save_op_to_buf)
          (rw (e4, save_op_to_buf)
            (rw (e5, save_op_to_buf) (rw (room, save_op_to_buf) (rw left refl))))))

pub length-encoded : (o : Op) → length (encoded o) ≡ 28 + length o.cont
length-encoded o =
    let a1 = le_bytes 4 o.cmd in
    let a2 = le_bytes 8 o.op_id in
    let a3 = le_bytes 4 o.log_file_id in
    let a4 = le_bytes 8 o.task_id in
    let a5 = le_bytes 4 (length o.cont) in
    omega (
      arith,
      length-append a1 (a2 ++ (a3 ++ (a4 ++ (a5 ++ o.cont)))),
      length-append a2 (a3 ++ (a4 ++ (a5 ++ o.cont))),
      length-append a3 (a4 ++ (a5 ++ o.cont)),
      length-append a4 (a5 ++ o.cont),
      length-append a5 o.cont,
      length-le_bytes 4 o.cmd,
      length-le_bytes 8 o.op_id,
      length-le_bytes 4 o.log_file_id,
      length-le_bytes 8 o.task_id,
      length-le_bytes 4 (length o.cont),
    )

-- The same bytes, each field before the ones behind it.
encoded-Nested :
    (o : Op) (rest : List ℕ)
    → encoded o ++ rest
      ≡ le_bytes 4 o.cmd
        ++ (le_bytes 8 o.op_id
            ++ (le_bytes 4 o.log_file_id
                ++ (le_bytes 8 o.task_id ++ (le_bytes 4 (length o.cont) ++ (o.cont ++ rest)))))
encoded-Nested o rest =
    let a1 = le_bytes 4 o.cmd in
    let a2 = le_bytes 8 o.op_id in
    let a3 = le_bytes 4 o.log_file_id in
    let a4 = le_bytes 8 o.task_id in
    let a5 = le_bytes 4 (length o.cont) in
    append_assoc a1 (a2 ++ (a3 ++ (a4 ++ (a5 ++ o.cont)))) rest
    ∙ ap (λ t. a1 ++ t)
        (append_assoc a2 (a3 ++ (a4 ++ (a5 ++ o.cont))) rest
          ∙ ap (λ t. a2 ++ t)
              (append_assoc a3 (a4 ++ (a5 ++ o.cont)) rest
                ∙ ap (λ t. a3 ++ t)
                    (append_assoc a4 (a5 ++ o.cont) rest
                      ∙ ap (λ t. a4 ++ t) (append_assoc a5 o.cont rest))))

pub load_op_from_buf-Encoded :
    (o : Op) (rest : List ℕ)
    → InRange o
    → load_op_from_buf (encoded o ++ rest) ≡ some (loaded o (length rest))
unfolding load_op_from_buf
load_op_from_buf-Encoded o rest r =
    let n = length o.cont in
    let f5 : n < 2 ^ 32 = omega (arith, r.cont_fits) in
    let t5 = le_bytes 4 n ++ (o.cont ++ rest) in
    let t4 = le_bytes 8 o.task_id ++ t5 in
    let t3 = le_bytes 4 o.log_file_id ++ t4 in
    let t2 = le_bytes 8 o.op_id ++ t3 in
    let e1 = load_int-le_bytes 4 o.cmd t2 (Fits-int o.cmd r.cmd_fits) in
    let e2 = load_int-le_bytes 8 o.op_id t3 (Fits-int64 o.op_id r.op_id_fits) in
    let e3 = load_int-le_bytes 4 o.log_file_id t4 (Fits-int o.log_file_id r.log_file_id_fits) in
    let e4 = load_int-le_bytes 8 o.task_id t5 (Fits-int64 o.task_id r.task_id_fits) in
    let e5 = load_int-le_bytes 4 n (o.cont ++ rest) (Fits-int n f5) in
    let small : ltb n (2 ^ 31) ≡ true = ground (arith, r.cont_fits) in
    let enough : ltb (length (o.cont ++ rest)) n ≡ false =
      ground (arith, length-append o.cont rest) in
    let mine : take n (o.cont ++ rest) ≡ o.cont =
      take-append_le n o.cont rest (omega arith) ∙ take_all n o.cont (omega arith) in
    let left : length (o.cont ++ rest) - n ≡ length rest =
      omega (arith, length-append o.cont rest) in
    ap load_op_from_buf (encoded-Nested o rest)
    ∙ rw (e1, load_op_from_buf)
        (rw (e2, load_op_from_buf)
          (rw (e3, load_op_from_buf)
            (rw (e4, load_op_from_buf)
              (rw (e5, load_op_from_buf)
                (rw (small, load_op_from_buf)
                  (rw (enough, load_op_from_buf) (rw (mine, left) refl)))))))

-- An operation whose fields fit is saved in a buffer with 28 bytes more than its contents, and
-- what was saved is loaded again, with whatever follows it left over.
pub load_op_from_buf-save_op_to_buf :
    (o : Op) (len : ℕ) (rest : List ℕ)
    → InRange o
    → 28 + length o.cont ≤ len
    → (bytes : List ℕ) × (left : ℕ) × (save_op_to_buf o len ≡ some (bytes, left))
      × (left + length bytes ≡ len)
      × (load_op_from_buf (bytes ++ rest) ≡ some (loaded o (length rest)))
load_op_from_buf-save_op_to_buf o len rest r h = (
  encoded o,
  len - (28 + length o.cont),
  save_op_to_buf-Room o len r h,
  omega (arith, length-encoded o, h),
  load_op_from_buf-Encoded o rest r,
)
