-- ===== src/Examples/Chunked.antt =====
-- The chunked reader on concrete sources.
use jotpot_server.Base.{
  ℕ, zero, suc, ◌≡◌, ◌≢◌, refl, arith, false, Option, none, some, [], ◌∷◌, ◌++◌, ◌+◌, Bytes, codes,
  length,
}
use jotpot_server.Base.Int.{pos}
use jotpot_server.Base.Hex.{parse_hex, parse_hex_digits, hex_digit}
use jotpot_server.Http.Ranges.{cut}
use jotpot_server.Http.Chunked.{Source, Result, read, read_source, chunk_size}
use jotpot_server.Http.Chunked.Attempts.{IsLast, read_source-IsLast}
use jotpot_server.Http.Chunked.Stream.{IsStream, Gives, crlf}
use jotpot_server.Http.Chunked.Decoded.{last, chunk, At, between, IsRead, read-IsRead}

-- A source that gives one byte at a time, and no error but at the end.
abbrev give_byte : Bytes → ℕ → Bytes × Bytes × Option ℕ
give_byte s zero = (s, [], none)
give_byte [] (suc k) = ([], [], some 1)
give_byte (b ∷ s) (suc k) = (s, b ∷ [], none)

abbrev drip : Source Bytes ℕ
drip = record { read = give_byte; is_temp = λ e. false }

-- The source of the chunk "hello", whose size is written with an extension, and of what follows.
abbrev hello_wire : Bytes
hello_wire =
    codes "05;x=1"
    ++ crlf
    ++ (codes "hello" ++ (crlf ++ (codes "0" ++ crlf ++ (crlf ++ codes "next"))))

same : Bytes → Bytes
same s = s

drip-Gives : (s : Bytes) (k : ℕ) → s ≢ [] → Gives same s (suc k) (give_byte s (suc k))
unfolding same
drip-Gives [] k n = absurd (n refl)
drip-Gives (b ∷ s) k n = record {
  first = b;
  rest = [];
  bytes = refl;
  no_error = refl;
  fits = omega arith;
  seen = refl;
}

drip-IsStream : IsStream drip same
unfolding same
drip-IsStream = record {
  gives = drip-Gives;
  idles = λ s. record { no_bytes = refl; no_error = refl; same = refl };
}

hello-At : At (codes "next") (pos 0) (codes "hello" ++ []) hello_wire
unfolding chunk_size cut parse_hex parse_hex_digits hex_digit
hello-At = between (codes "hello" ++ []) hello_wire (
    chunk (codes "05;x=1") b'h' (codes "ello") [] (codes "0" ++ crlf ++ (crlf ++ codes "next"))
      (refl, (refl, (refl, (refl, (refl, (refl, tt)))))) refl (last (codes "0") (refl, tt) refl))

read-IsRead_example :
    (r : Result Bytes ℕ) × (read (length hello_wire + 4) drip (pos 0) hello_wire 3 ≡ some r)
    × IsRead (codes "next") same (codes "hello" ++ []) 3 r
unfolding same
read-IsRead_example =
    read-IsRead drip same (codes "next") hello_wire 3 (pos 0) (codes "hello" ++ []) drip-IsStream
      hello-At

-- A source that has nothing for ever.
abbrev silent : Source ℕ ℕ
silent = record { read = λ n k. (suc n, [], none); is_temp = λ e. false }

read_source-IsLast_example :
    (r : ℕ × Bytes × Option ℕ) × (read_source silent 0 2 ≡ some r) × IsLast silent 2 0 r
read_source-IsLast_example = read_source-IsLast silent 0 2
