-- ===== src/Buffer.antt =====
-- core/buffer.h and core/buffer.cpp: the growable byte buffer of the connections and the codecs.
-- The vector is a list of bytes. A write past its end, which C++ leaves undefined, is `none`.
-- `peek` stands for the bytes between the two indices. Sizes are those of objects in memory, so
-- that sums of two of them do not wrap at 2 ^ 64.
pub mod Space
pub mod Append
pub mod Overrun
pub mod Take
pub mod Find
use lightnet.Common.{
  ℕ, suc, ◌+◌, ◌-◌, ◌*◌, ◌≤◌, Bool, List, [], ◌∷◌, ◌++◌, Option, none, some, leb, ltb, ◌==◌, ◌&&◌,
  if◌then◌else◌, length, take, drop, replicate, min, ◌>>=◌,
}

pub record Buffer : Type 0 where
  pub storage : List ℕ
  pub reader_index : ℕ
  pub writer_index : ℕ

abbrev pub initial_size : ℕ
initial_size = 1024

abbrev pub cheap_prepend : ℕ
cheap_prepend = 8

abbrev pub max_capacity : ℕ
max_capacity = 64 * 1024 * 1024

-- The constructor with a size; the default one passes `initial_size`.
unfoldable pub with_size : ℕ → Buffer
with_size n = record {
  storage = replicate (cheap_prepend + n) 0;
  reader_index = cheap_prepend;
  writer_index = cheap_prepend;
}

unfoldable pub new : Buffer
unfolding with_size
new = with_size initial_size

abbrev pub readable_bytes : Buffer → ℕ
readable_bytes b = b.writer_index - b.reader_index

abbrev pub writable_bytes : Buffer → ℕ
writable_bytes b = length b.storage - b.writer_index

abbrev pub prependable_bytes : Buffer → ℕ
prependable_bytes b = b.reader_index

-- The readable bytes, from `peek()` up to `begin_write()`.
unfoldable pub peek : Buffer → List ℕ
peek b = drop b.reader_index (take b.writer_index b.storage)

unfoldable pub retrieve_all : Buffer → Buffer
retrieve_all b = record b { reader_index = cheap_prepend; writer_index = cheap_prepend }

unfoldable pub retrieve : Buffer → ℕ → Buffer
unfolding retrieve_all
retrieve b len =
    if ltb len (readable_bytes b)
    then record b { reader_index = b.reader_index + len }
    else retrieve_all b

-- The end is given by its offset from `peek()`.
retrieve_until : Buffer → ℕ → Buffer
unfolding retrieve
retrieve_until b end = retrieve b end

pub retrieve_as_string : Buffer → ℕ → List ℕ × Buffer
retrieve_as_string b n = let len = min n (readable_bytes b) in (take len (peek b), retrieve b len)

retrieve_all_as_string : Buffer → List ℕ × Buffer
unfolding retrieve_as_string
retrieve_all_as_string b = retrieve_as_string b (readable_bytes b)

-- `std::vector::resize`.
abbrev pub resize : ℕ → List ℕ → List ℕ
resize n xs = take n xs ++ replicate (n - length xs) 0

abbrev pub overwrite : List ℕ → ℕ → List ℕ → List ℕ
overwrite xs i d = take i xs ++ (d ++ drop (i + length d) xs)

-- `memcpy` and `memmove` to an offset of the vector.
pub store : List ℕ → ℕ → List ℕ → Option (List ℕ)
store xs i d = if leb (i + length d) (length xs) then some (overwrite xs i d) else none

abbrev pub capped : ℕ → ℕ
capped n = if ltb max_capacity n then max_capacity else n

make_space : Buffer → ℕ → Option Buffer
unfolding store
make_space b len =
    if ltb (writable_bytes b + prependable_bytes b) (len + cheap_prepend)
    then some (record b { storage = resize (capped (b.writer_index + len)) b.storage })
    else do
      moved ← store b.storage cheap_prepend (peek b)
      some (record {
        storage = moved;
        reader_index = cheap_prepend;
        writer_index = cheap_prepend + readable_bytes b;
      })

pub ensure_writable : Buffer → ℕ → Option Buffer
ensure_writable b len = if ltb (writable_bytes b) len then make_space b len else some b

pub has_written : Buffer → ℕ → Buffer
has_written b len = record b { writer_index = b.writer_index + len }

pub append : Buffer → List ℕ → Option Buffer
append b d = do
  roomy ← ensure_writable b (length d)
  written ← store roomy.storage roomy.writer_index d
  some (has_written (record roomy { storage = written }) (length d))

-- What `readv` did: the error number, or the bytes that it delivered.
pub data Readv : Type 0 where
  failed : ℕ → Readv
  got : List ℕ → Readv

abbrev pub extra_size : ℕ
extra_size = 65536

-- The room that is offered to `readv`: the second block only if the first is smaller than it.
unfoldable pub read_room : Buffer → ℕ
read_room b =
    if ltb (writable_bytes b) extra_size then writable_bytes b + extra_size else writable_bytes b

pub read_fd : Buffer → Readv → Option Buffer
read_fd b (failed saved_errno) = some b
read_fd b (got bytes) =
    let n = length bytes in
    let writable = writable_bytes b in
    if leb n writable
    then (do
      filled ← store b.storage b.writer_index bytes
      some (record b { storage = filled; writer_index = b.writer_index + n }))
    else do
      filled ← store b.storage b.writer_index (take writable bytes)
      append (record b { storage = filled; writer_index = length filled }) (drop writable bytes)

-- `std::search` for CR LF, as an offset.
unfoldable pub search_crlf : List ℕ → Option ℕ
search_crlf [] = none
search_crlf (c ∷ []) = none
search_crlf (c ∷ d ∷ rest) =
    let later = search_crlf (d ∷ rest) in
    if c == 13 && d == 10 then some 0 else (do i ← later; some (suc i))

-- The offset of the first CR LF from `peek()`.
unfoldable pub find_crlf : Buffer → Option ℕ
unfolding search_crlf peek
find_crlf b = search_crlf (peek b)
