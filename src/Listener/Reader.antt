-- ===== src/Listener/Reader.antt =====
-- A buffered reader over a socket, as tokio's `BufReader::new` makes it: `read_line` and
-- `into_inner`; and the loop over the headers of a request in redog-listener/src/http/mod.rs.
use redog.Common.{
  ℕ, zero, suc, ◌+◌, Bool, Text, codes, List, [], ◌∷◌, ◌++◌, none, some, split_once, trim, length,
}
use redog.Common.Utf8.{Bytes, from_utf8}
use redog.Core.Error.{io, Result, ok, err}
use redog.Transport.Wire.{Wire}

-- What each read from the peer will give, and the bytes written to it. The reads are finitely many
-- and the end of file is behind them: a peer that stays open without sending, or that never stops
-- sending, is not expressed.
pub record Socket : Type 0 where
  pub arriving : List Bytes
  pub output : Bytes
  pub broken : Bool

abbrev pub all_bytes : List Bytes → Bytes
all_bytes [] = []
all_bytes (bytes ∷ more) = bytes ++ all_bytes more

-- The socket when it no longer matters what each read gives.
abbrev pub as_wire : Socket → Wire
as_wire s = record { input = all_bytes s.arriving; output = s.output; broken = s.broken }

pub record BufReader : Type 0 where
  pub buffer : Bytes
  pub inner : Socket

-- `BufReader::new`
abbrev pub new_reader : Socket → BufReader
new_reader s = record { buffer = []; inner = s }

-- `into_inner`: what is in the buffer is lost.
abbrev pub into_inner : BufReader → Socket
into_inner r = r.inner

-- The bytes up to a line feed or the end of file, and what is left in the buffer and to be read. A
-- read that gives nothing is the end of file.
unfoldable pub read_until : Bytes → List Bytes → Bytes × Bytes × List Bytes
unfolding split_once
read_until buffer [] = elim (split_once b'\n' buffer) [
  | some (line, rest) ↦ (line ++ (b'\n' ∷ []), rest, [])
  | none ↦ (buffer, [], [])
]
read_until buffer ([] ∷ more) = elim (split_once b'\n' buffer) [
  | some (line, rest) ↦ (line ++ (b'\n' ∷ []), rest, [] ∷ more)
  | none ↦ (buffer, [], more)
]
read_until buffer ((c ∷ bytes) ∷ more) =
    let (line', rest', more') = read_until (c ∷ bytes) more in
    elim (split_once b'\n' buffer) [
      | some (line, rest) ↦ (line ++ (b'\n' ∷ []), rest, (c ∷ bytes) ∷ more)
      | none ↦ (buffer ++ line', rest', more')
    ]

-- The line as a text, and the reader after it.
unfoldable pub line_text : Socket → Bytes × Bytes × List Bytes → BufReader × Result Text
unfolding from_utf8
line_text s (line, buffer, arriving) = (
  record { buffer = buffer; inner = record s { arriving = arriving } },
  elim (from_utf8 line) [
    | some text ↦ ok text
    | none ↦ err (io (codes "stream did not contain valid UTF-8"))
  ],
)

-- `read_line`
unfoldable pub read_line : BufReader → BufReader × Result Text
unfolding read_until line_text
read_line r = line_text r.inner (read_until r.buffer r.inner.arriving)

-- A call that answers, or one that has used up the fuel of its loop.
pub data Run (R A : Type 0) : Type 0 where
  answers : R → Result A → Run R A
  out_of_fuel : Run R A

-- After a line: a blank one, or an error, is the last.
unfoldable pub after_line :
    (BufReader → Run BufReader (Unit {0})) → BufReader × Result Text → Run BufReader (Unit {0})
unfolding trim
after_line next (r, err e) = answers r (err e)
after_line next (r, ok text) = elim (trim text) [ [] ↦ answers r (ok tt) | _ ∷ _ ↦ next r ]

-- The loop that reads lines up to a blank one, or to the end of file.
unfoldable pub read_headers : ℕ → BufReader → Run BufReader (Unit {0})
unfolding read_line after_line
read_headers zero r = out_of_fuel
read_headers (suc fuel) r = after_line (read_headers fuel) (read_line r)

-- The bytes that a reader still has to give, with which the loop comes to its end.
abbrev pub pending : BufReader → ℕ
pending r = length r.buffer + length (all_bytes r.inner.arriving)
