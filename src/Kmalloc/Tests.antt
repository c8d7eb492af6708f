-- ===== src/Kmalloc/Tests.antt =====
-- The theorems on the allocator at small heaps.
use elco_os.Base.{
  ℕ, ◌+◌, ◌-◌, ◌≡◌, ◌≤◌, refl, Bool, true, false, [], ◌∷◌, some, arith, ◌==◌, ltb, if◌then◌else◌,
}
use elco_os.Kmalloc.Chunk.{
  Links, Arena, chunk_align, request2size, request_overflow, kmalloc_state_magic,
}
use elco_os.Kmalloc.Dllist.{kmalloc_dllist_remove_intern}
use elco_os.Kmalloc.Dllist.Ring.{Ring, Leaves}
use elco_os.Kmalloc.Dllist.Ring.Remove.{kmalloc_dllist_remove_intern-Ring}
use elco_os.Kmalloc.Layout.{Tagged}
use elco_os.Kmalloc.Layout.Free.{Settled, kfree-freed}
use elco_os.Kmalloc.Layout.Twice.{kfree-kfree-abort}
use elco_os.Kmalloc.Layout.Join.{kfree-joined}
use elco_os.Kmalloc.Layout.Shrink.{Shrunk}
use elco_os.Kmalloc.Layout.RoundTrip.{kfree-cut_top}
use elco_os.Kmalloc.Layout.SmallBin.{kmalloc-Ring}
use elco_os.Kmalloc.Layout.Fresh.{OneBlock, kmalloc_init-OneBlock, kfree-kmalloc}
use elco_os.Kmalloc.Bins.{lowest_bit, is_empty_map}
use elco_os.Kmalloc.Top.{cut_top, kmalloc_init}
use elco_os.Kmalloc.Api.{kmalloc, kfree, krealloc, abort}

-- the chunks 8, 24 and 40 in a circle
abbrev circle : Links
circle = record {
  next = λ c. if c == 8 then 24 else if c == 24 then 40 else 8;
  prev = λ c. if c == 8 then 40 else if c == 24 then 8 else 24;
}

circle-Ring : Ring circle 8 (8 ∷ 24 ∷ 40 ∷ [])
circle-Ring = (
  refl,
  (ground arith, refl, (ground arith, refl, (ground arith, refl, tt))),
  (refl, refl, (refl, refl, (refl, refl))),
)

kmalloc_dllist_remove_intern-Ring_example :
    Leaves (kmalloc_dllist_remove_intern circle 24 8) (8 ∷ 40 ∷ [])
kmalloc_dllist_remove_intern-Ring_example =
    kmalloc_dllist_remove_intern-Ring circle 24 8 (8 ∷ 24 ∷ 40 ∷ []) circle-Ring refl

-- bit 5 alone
abbrev bit_5 : ℕ → Bool
bit_5 i = i == 5

-- A heap of `size` bytes at 4096 that began with `initial` bytes: it is all top chunk, and sbrk
-- refuses once.
abbrev heap_of : (initial size : ℕ) → Arena
heap_of initial size = record {
  prev_foot = λ c. 0;
  header = λ c. if c == 4096 then size - 8 + 1 else 0;
  links = record { next = λ c. 0; prev = λ c. 0 };
  left = λ c. 0;
  right = λ c. 0;
  parent = λ c. 0;
  index = λ c. 0;
  bytes = λ p. 0;
  heap_start = 4096;
  heap_size = size;
  initial_heap_size = initial;
  sbinmap = λ i. false;
  tbinmap = λ i. false;
  sbin = λ i. 0;
  tbin = λ i. 0;
  d_victim = 0;
  d_victim_size = 0;
  top_chunk = 4096;
  top_chunk_size = size - 8;
  magic = kmalloc_state_magic;
  answers = false ∷ [];
  requests = [];
  aborted = false;
}

-- the heap with one chunk in the tree bin 5
abbrev with_tree : Arena
with_tree = record (heap_of 4096 20480) { tbinmap = bit_5; tbin = λ i. if i == 5 then 8192 else 0 }

some_tree : is_empty_map bit_5 ≡ false
unfolding is_empty_map lowest_bit
some_tree = refl

-- The heap with two blocks in use before the top chunk.
abbrev two_blocks : Arena
two_blocks = record (heap_of 4096 8192) {
  header = λ c. if c == 4096 then 35 else if c == 4128 then 51 else if c == 4176 then 8105 else 0;
  prev_foot = λ c. if c == 12280 then 8104 else 0;
  top_chunk = 4176;
  top_chunk_size = 8104;
}

two_blocks-Tagged : Tagged two_blocks true 4096 ((32, true) ∷ (48, true) ∷ (8104, false) ∷ []) 12280
two_blocks-Tagged = (
  refl,
  refl,
  omega arith,
  λ free. absurd (ground arith),
  (
    refl,
    refl,
    omega arith,
    λ free. absurd (ground arith),
    (refl, refl, omega arith, λ free. refl, refl),
  ),
)

kfree-freed_example :
    (a' : Arena) × (kfree two_blocks 4104 ≡ some a')
    × Tagged a' true 4096 ((32, false) ∷ (48, true) ∷ (8104, false) ∷ []) 12280
    × Settled two_blocks a' 4096 32 []
kfree-freed_example =
    kfree-freed two_blocks true 4096 32 48 [] ((8104, false) ∷ []) 12280 [] two_blocks-Tagged refl
      (λ small. refl) refl refl (omega arith) (omega arith)

kfree-kfree-abort_example :
    (a' : Arena) × (kfree two_blocks 4104 ≡ some a')
    × (kfree a' 4104 ≡ some (abort a'))
    × (krealloc a' 4104 50 ≡ some (0, abort a'))
kfree-kfree-abort_example =
    kfree-kfree-abort two_blocks true 4096 32 48 50 [] ((8104, false) ∷ []) 12280 two_blocks-Tagged
      refl refl (omega arith) (omega arith)

kfree-joined_example :
    (gone : ℕ) × (a' : Arena) × (kfree two_blocks 4136 ≡ some a')
    × Shrunk true 4096
        ((32, true) ∷ [])
        12280
        (record two_blocks { top_chunk = 4128; top_chunk_size = 8152 })
        gone
        a'
kfree-joined_example =
    kfree-joined two_blocks true 4096 48 ((32, true) ∷ []) 12280 two_blocks-Tagged refl refl
      (omega arith) refl (omega arith) (omega arith) (omega arith) refl refl (omega arith)

kfree-cut_top_example :
    (gone : ℕ) × (a' : Arena) × (kfree (cut_top two_blocks 64).1 (cut_top two_blocks 64).0
      ≡ some a')
    × Shrunk true 4096 ((32, true) ∷ (48, true) ∷ []) 12280 two_blocks gone a'
kfree-cut_top_example =
    kfree-cut_top two_blocks true 4096 64 ((32, true) ∷ (48, true) ∷ []) 12280 two_blocks-Tagged
      refl refl (omega arith) refl (omega arith) (omega arith) refl (omega arith) (omega arith)
      (omega arith) (omega arith) refl refl (omega arith)

-- The heap with a designated victim between two blocks in use.
abbrev with_victim : Arena
with_victim = record (heap_of 4096 8192) {
  header = λ c.
      if c == 4096
      then 35
      else if c == 4128
      then 49
      else if c == 4176
      then 66
      else if c == 4240
      then 8041
      else 0;
  prev_foot = λ c. if c == 4176 then 48 else if c == 12280 then 8040 else 0;
  d_victim = 4128;
  d_victim_size = 48;
  top_chunk = 4240;
  top_chunk_size = 8040;
}

with_victim-Tagged :
    Tagged with_victim true 4096 ((32, true) ∷ (48, false) ∷ (64, true) ∷ (8040, false) ∷ []) 12280
with_victim-Tagged = (
  refl,
  refl,
  omega arith,
  λ free. absurd (ground arith),
  (
    refl,
    refl,
    omega arith,
    λ free. refl,
    (
      refl,
      refl,
      omega arith,
      λ free. absurd (ground arith),
      (refl, refl, omega arith, λ free. refl, refl),
    ),
  ),
)

kmalloc_init-OneBlock_example :
    OneBlock (kmalloc_init (heap_of 4096 4096) 16384 8192) 16384 8192
    × ((i : ℕ) → (kmalloc_init (heap_of 4096 4096) 16384 8192).sbin i ≡ (if ltb i 32 then 0 else 0))
kmalloc_init-OneBlock_example =
    kmalloc_init-OneBlock (heap_of 4096 4096) 16384 8192 (omega arith) refl refl (omega arith)
      (omega arith)

request_100 : request2size 100 + 24 ≤ 8192
unfolding request2size chunk_align
request_100 = omega arith

overflow_100 : request_overflow 100 ≡ false
unfolding request_overflow request2size chunk_align
overflow_100 = refl

kfree-kmalloc_example :
    (payload : ℕ) × (a1 : Arena) × (a2 : Arena) × (kmalloc
        (kmalloc_init (heap_of 4096 4096) 16384 8192)
        100
      ≡ some (payload, a1))
    × (payload ≡ 16392)
    × (kfree a1 payload ≡ some a2)
    × (a2.heap_size ≡ 8192)
    × (a2.top_chunk ≡ 16384)
    × (a2.top_chunk_size ≡ 8184)
    × Tagged a2 true 16384 ((8184, false) ∷ []) 24568
kfree-kmalloc_example =
    kfree-kmalloc (kmalloc_init (heap_of 4096 4096) 16384 8192) 16384 8192 100
      (kmalloc_init-OneBlock (heap_of 4096 4096) 16384 8192 (omega arith) refl refl (omega arith)
        (omega arith)).0
      (omega arith) refl (omega arith) (omega arith) overflow_100 request_100

-- The heap with a chunk of 48 bytes in its small bin.
abbrev with_bin : Arena
with_bin = record with_victim {
  d_victim = 0;
  d_victim_size = 0;
  sbinmap = λ i. i == 6;
  sbin = λ i. if i == 6 then 4128 else 0;
  links = record { next = λ c. 4128; prev = λ c. 4128 };
}

overflow_44 : request_overflow 44 ≡ false
unfolding request_overflow request2size chunk_align
overflow_44 = refl

with_bin-Tagged :
    Tagged with_bin true 4096 ((32, true) ∷ (48, false) ∷ (64, true) ∷ (8040, false) ∷ []) 12280
with_bin-Tagged = (
  refl,
  refl,
  omega arith,
  λ free. absurd (ground arith),
  (
    refl,
    refl,
    omega arith,
    λ free. refl,
    (
      refl,
      refl,
      omega arith,
      λ free. absurd (ground arith),
      (refl, refl, omega arith, λ free. refl, refl),
    ),
  ),
)

kmalloc-Ring_example :
    (a' : Arena) × (kmalloc with_bin 44 ≡ some (4136, a'))
    × Ring a'.links (a'.sbin 6) []
    × Tagged a' true 4096 ((32, true) ∷ (48, true) ∷ (64, true) ∷ (8040, false) ∷ []) 12280
unfolding request2size chunk_align
kmalloc-Ring_example =
    kmalloc-Ring with_bin true 4096 44 4128 [] ((32, true) ∷ []) ((64, true) ∷ (8040, false) ∷ [])
      12280 refl overflow_44 (omega arith) refl (refl, (omega arith, refl, tt), (refl, refl))
      with_bin-Tagged refl refl
