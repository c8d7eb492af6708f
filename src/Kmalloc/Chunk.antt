-- ===== src/Kmalloc/Chunk.antt =====
-- kmalloc.h: the state of the allocator, and the chunks. A chunk is the address of its struct;
-- each field of the structs is a map from chunks to values, so fields of different chunks are
-- different places: live chunks do not overlap. The heap does not wrap around the address space.
pub mod Size
use elco_os.Base.{
  ℕ, ◌+◌, ◌-◌, ◌/◌, ◌%◌, ◌^◌, Bool, true, false, ◌&&◌, not, List, if◌then◌else◌, ◌==◌, ltb, leb,
  upd,
}
use elco_os.Kstring.Memory.{Bytes}

-- the links of struct kmalloc_chunk, the first fields of struct kmalloc_tree_chunk
pub record Links : Type 0 where
  pub next : ℕ → ℕ
  pub prev : ℕ → ℕ

-- struct kmalloc_state with the memory of the chunks. A map of bins is the truth values of its 32
-- bits. `bytes` is the payload of the chunks. The callbacks of libk.c enter as data: `answers` are
-- those of the next calls to sbrk, whose arguments `requests` records, last first; `aborted` tells
-- whether abort was called.
pub record Arena : Type 0 where
  pub prev_foot : ℕ → ℕ
  pub header : ℕ → ℕ
  pub links : Links
  pub left : ℕ → ℕ
  pub right : ℕ → ℕ
  pub parent : ℕ → ℕ
  pub index : ℕ → ℕ
  pub bytes : Bytes
  pub heap_start : ℕ
  pub heap_size : ℕ
  pub initial_heap_size : ℕ
  pub sbinmap : ℕ → Bool
  pub tbinmap : ℕ → Bool
  pub sbin : ℕ → ℕ
  pub tbin : ℕ → ℕ
  pub d_victim : ℕ
  pub d_victim_size : ℕ
  pub top_chunk : ℕ
  pub top_chunk_size : ℕ
  pub magic : ℕ
  pub answers : List Bool
  pub requests : List ℕ
  pub aborted : Bool

abbrev pub min_chunk_size : ℕ
min_chunk_size = 16

abbrev pub dummy_size : ℕ
dummy_size = 8

abbrev pub min_large_size : ℕ
min_large_size = 256

abbrev pub bins : ℕ
bins = 32

abbrev pub kmalloc_state_magic : ℕ
kmalloc_state_magic = 0xC0FEFE

-- h | PINUSE, h | CINUSE and h & ~PINUSE
abbrev pub set_pinuse : ℕ → ℕ
set_pinuse h = h - h % 2 + 1

abbrev pub set_cinuse : ℕ → ℕ
set_cinuse h = if h / 2 % 2 == 1 then h else h + 2

abbrev pub clear_pinuse : ℕ → ℕ
clear_pinuse h = h - h % 2

abbrev pub is_inuse : Arena → ℕ → Bool
is_inuse a c = a.header c / 2 % 2 == 1

abbrev pub prev_inuse : Arena → ℕ → Bool
prev_inuse a c = a.header c % 2 == 1

abbrev pub get_chunk_size : Arena → ℕ → ℕ
get_chunk_size a c = a.header c - a.header c % 8

-- NEXTCHUNK and PREVCHUNK
abbrev pub next_chunk : Arena → ℕ → ℕ
next_chunk a c = c + get_chunk_size a c

abbrev pub prev_chunk : Arena → ℕ → ℕ
prev_chunk a c = c - a.prev_foot c

-- CHUNK_PAYLOAD and PAYLOAD_CHUNK: the payload begins at the field `next`
abbrev pub chunk_payload : ℕ → ℕ
chunk_payload c = c + 8

abbrev pub payload_chunk : ℕ → ℕ
payload_chunk p = p - 8

-- the difference of two values of size_t
abbrev pub sub32 : ℕ → ℕ → ℕ
sub32 x y = (x + 2 ^ 32 - y) % 2 ^ 32

-- CHUNKALIGN and CHUNKFLOOR, the first one for values of size_t
unfoldable pub chunk_align : ℕ → ℕ
chunk_align x = let y = (x + 7) % 2 ^ 32 in y - y % 8

abbrev pub chunk_floor : ℕ → ℕ
chunk_floor x = x - x % 8

unfoldable pub request2size : ℕ → ℕ
unfolding chunk_align
request2size req =
    if ltb ((req + 4) % 2 ^ 32) min_chunk_size
    then min_chunk_size
    else chunk_align ((req + 4) % 2 ^ 32)

unfoldable pub request_overflow : ℕ → Bool
request_overflow req = ltb (request2size req) req

abbrev pub is_init : Arena → Bool
is_init a = not (a.heap_start == 0) && (a.magic == kmalloc_state_magic)

abbrev pub address_ok : Arena → ℕ → Bool
address_ok a c = leb a.heap_start c && ltb c (a.heap_start + a.heap_size)

-- chunk->header = h and chunk->prev_foot = f
abbrev pub set_header : Arena → ℕ → ℕ → Arena
set_header a c h = record a { header = upd a.header c h }

abbrev pub set_prev_foot : Arena → ℕ → ℕ → Arena
set_prev_foot a c f = record a { prev_foot = upd a.prev_foot c f }
