-- ===== src/Netbuf.antt =====
-- kernel/net/netbuf.c: the two pools of packet buffers, and their reference counts. A pointer to a
-- buffer is its pool and its index there.
pub mod Alloc
pub mod Share
mod Tests
use hobbyos.Base.{
  ℕ, zero, suc, ◌+◌, ◌-◌, Bool, true, false, not, Option, none, some, List, [], ◌∷◌, ltb,
  if◌then◌else◌, get_or, modify, replicate, find_index,
}

abbrev pub netbuf_small_size : ℕ
netbuf_small_size = 256

abbrev pub netbuf_large_size : ℕ
netbuf_large_size = 2048

abbrev pub netbuf_small_count : ℕ
netbuf_small_count = 128

abbrev pub netbuf_large_count : ℕ
netbuf_large_count = 128

pub record Netbuf : Type 0 where
  pub bytes : List ℕ
  pub len : ℕ
  pub offset : ℕ
  pub capacity : ℕ
  pub refcount : ℕ
  pub in_use : Bool
  pub is_small : Bool

unfoldable pub zero_netbuf : Netbuf
zero_netbuf = record {
  bytes = replicate netbuf_large_size 0;
  len = 0;
  offset = 0;
  capacity = 0;
  refcount = 0;
  in_use = false;
  is_small = false;
}

pub record Pools : Type 0 where
  pub small_pool : List Netbuf
  pub large_pool : List Netbuf

pub data BufPtr : Type 0 where
  small : ℕ → BufPtr
  large : ℕ → BufPtr

abbrev pub buf : BufPtr → Pools → Netbuf
buf (BufPtr.small i) p = get_or p.small_pool i zero_netbuf
buf (BufPtr.large i) p = get_or p.large_pool i zero_netbuf

abbrev pub set_buf : BufPtr → (Netbuf → Netbuf) → Pools → Pools
set_buf (BufPtr.small i) f p = record p { small_pool = modify p.small_pool i f }
set_buf (BufPtr.large i) f p = record p { large_pool = modify p.large_pool i f }

abbrev pub new_small : Netbuf
new_small = record zero_netbuf { capacity = netbuf_small_size; is_small = true }

abbrev pub new_large : Netbuf
new_large = record zero_netbuf { capacity = netbuf_large_size; is_small = false }

unfoldable pub netbuf_init : Pools
netbuf_init = record {
  small_pool = replicate netbuf_small_count new_small;
  large_pool = replicate netbuf_large_count new_large;
}

abbrev pub claim : Netbuf → Netbuf
claim b = record b { in_use = true; len = 0; offset = 0; refcount = 1 }

-- The first buffer of a pool that is not in use.
abbrev pub free_in : List Netbuf → Option ℕ
free_in pool = find_index (λ (b : Netbuf). not b.in_use) pool

unfoldable pub claim_large : Option ℕ → Pools → Option BufPtr × Pools
claim_large none p = (none, p)
claim_large (some i) p = (some (BufPtr.large i), set_buf (BufPtr.large i) claim p)

-- The small pool, and where that has no buffer the large one.
unfoldable pub claim_small : Option ℕ → Pools → Option BufPtr × Pools
unfolding claim_large
claim_small none p = claim_large (free_in p.large_pool) p
claim_small (some i) p = (some (BufPtr.small i), set_buf (BufPtr.small i) claim p)

unfoldable pub netbuf_alloc_size : ℕ → Pools → Option BufPtr × Pools
unfolding claim_small
netbuf_alloc_size min_size p =
    if ltb netbuf_small_size min_size
    then claim_large (free_in p.large_pool) p
    else claim_small (free_in p.small_pool) p

unfoldable pub netbuf_alloc : Pools → Option BufPtr × Pools
unfolding netbuf_alloc_size
netbuf_alloc p = netbuf_alloc_size netbuf_large_size p

abbrev pub ref_one : Netbuf → Netbuf
ref_one b = if ltb b.refcount 255 then record b { refcount = b.refcount + 1 } else b

unfoldable pub netbuf_ref : Option BufPtr → Pools → Pools
netbuf_ref none p = p
netbuf_ref (some b) p = set_buf b ref_one p

abbrev pub free_one : Netbuf → Netbuf
free_one b =
    if ltb 1 b.refcount
    then record b { refcount = b.refcount - 1 }
    else record b { refcount = 0; in_use = false }

unfoldable pub netbuf_free : Option BufPtr → Pools → Pools
netbuf_free none p = p
netbuf_free (some b) p = set_buf b free_one p
