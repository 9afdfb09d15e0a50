-- ===== src/Cache/Tests.antt =====
-- A memory with a few bytes, a line and the words of it, and the theorems at them.
use rv64_ooo_core.Prelude.{
  ℕ, zero, suc, ◌-◌, ◌*◌, ◌%◌, ◌^◌, ◌≤◌, ◌<◌, ◌≡◌, refl, ◌↔◌, arith, Bool, true, false, none, some,
  List, [], ◌∷◌, ◌++◌, replicate, get_or,
}
use rv64_ooo_core.Cache.{
  ByteMem, find, get, put, read_loop, read, write_loop, write, read_line, write_line, equals,
  agrees, wide_to_bytes, bytes_to_wide,
}
use rv64_ooo_core.Cache.Bytes.{away}
use rv64_ooo_core.Cache.ReadBack.{read-write, read_line-write_line}
use rv64_ooo_core.Cache.Equal.{Distinct, empty, put-Distinct, equals_iff}
use rv64_ooo_core.Cache.Wide.{wide_to_bytes-bytes_to_wide, bytes_to_wide-wide_to_bytes}
use rv64_ooo_core.Cache.Responder.{Request, fresh, run, read_answered}

abbrev one_byte : ByteMem
one_byte = record { addr = 0x80; value = 7 } ∷ []

-- `write`, `read` and `equals` with all that they call open.
written_word : ℕ
unfolding write write_loop put read read_loop get find
written_word = read (write one_byte (2 ^ 64 - 2) 2 0x44332211) (2 ^ 64 - 2) 2

written_word_is : written_word ≡ 0x44332211
unfolding written_word
written_word_is = refl

same_with_zero : Bool
unfolding equals agrees get find put
same_with_zero = equals one_byte (put (put [] 0x81 0) 0x80 7)

same_with_zero_is : same_with_zero ≡ true
unfolding same_with_zero
same_with_zero_is = refl

read-write_example :
    (read (write one_byte (2 ^ 64 - 2) 2 0x44332211) (2 ^ 64 - 2) 2 ≡ 0x44332211 % 2 ^ (8 * 2 ^ 2))
    × ((b : ℕ)
        → b < 2 ^ 64
        → 2 ^ 2 ≤ away (2 ^ 64 - 2) b
        → get (write one_byte (2 ^ 64 - 2) 2 0x44332211) b ≡ get one_byte b)
read-write_example = read-write one_byte (2 ^ 64 - 2) 2 0x44332211 (omega arith)

abbrev sevens : List ℕ
sevens = replicate 64 7

read_line-write_line_example :
    (read_line (write_line one_byte 0x40 sevens) 0x40 ≡ sevens)
    × ((b : ℕ)
        → b < 2 ^ 64
        → 64 ≤ away 0x40 b
        → get (write_line one_byte 0x40 sevens) b ≡ get one_byte b)
read_line-write_line_example = read_line-write_line one_byte 0x40 sevens refl

put_twice : Distinct (put (put [] 0x81 0) 0x80 7)
put_twice = put-Distinct (put [] 0x81 0) 0x80 7 (put-Distinct [] 0x81 0 empty)

equals_iff_example :
    (equals (put (put [] 0x81 0) 0x80 7) [] ≡ true)
    ↔ ((a : ℕ) → get (put (put [] 0x81 0) 0x80 7) a ≡ get [] a)
equals_iff_example = equals_iff (put (put [] 0x81 0) 0x80 7) [] put_twice empty

replicate_below : (n v k i : ℕ) → v < k → get_or (replicate n v) i 0 < k
replicate_below zero v k i h = omega arith
replicate_below (suc n) v k zero h = h
replicate_below (suc n) v k (suc i) h = replicate_below n v k i h

sevens_are_bytes : (j : ℕ) → get_or sevens j 0 < 2 ^ 8
sevens_are_bytes j = replicate_below 64 7 (2 ^ 8) j (omega arith)

wide_to_bytes-bytes_to_wide_example : wide_to_bytes (bytes_to_wide sevens) ≡ sevens
wide_to_bytes-bytes_to_wide_example = wide_to_bytes-bytes_to_wide sevens refl sevens_are_bytes

abbrev words : List ℕ
words = replicate 16 0x04030201

words_fit : (i : ℕ) → get_or words i 0 < 2 ^ 32
words_fit i = replicate_below 16 0x04030201 (2 ^ 32) i (omega arith)

bytes_to_wide-wide_to_bytes_example : bytes_to_wide (wide_to_bytes words) ≡ words
bytes_to_wide-wide_to_bytes_example = bytes_to_wide-wide_to_bytes words refl words_fit

abbrev line_read : Request
line_read = record { req_valid = true; req_addr = 0x80; req_we = false; req_wdata = []; rand = 41 }

abbrev others : List Request
others = replicate 2 (record line_read { req_we = true })

read_answered_example :
    ((0 < 2) × (2 ≤ 20))
    × ((run (fresh one_byte) (line_read ∷ others)).0
        ≡ replicate 2 none ++ (some (read_line one_byte 0x80) ∷ []))
    × ((run (fresh one_byte) (line_read ∷ others)).1.backing ≡ one_byte)
unfolding fresh
read_answered_example =
    read_answered (fresh one_byte) line_read others (omega arith) (omega arith) refl refl refl refl
