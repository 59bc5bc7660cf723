-- ===== src/Netbuf/Tests.antt =====
-- Buffers taken from the initialised pools.
use hobbyos.Base.{some}
use hobbyos.Netbuf.{Pools, BufPtr, netbuf_init, netbuf_alloc_size, netbuf_free}
use hobbyos.Netbuf.Alloc.{IsPools}
use hobbyos.Netbuf.Share.{PoolSteps, steps-IsPools}

abbrev one_taken : Pools
unfolding netbuf_alloc_size
one_taken = (netbuf_alloc_size 60 netbuf_init).1

steps-IsPools_example :
    IsPools (netbuf_free (some (BufPtr.small 0)) (netbuf_alloc_size 60 netbuf_init).1)
steps-IsPools_example =
    steps-IsPools (netbuf_free (some (BufPtr.small 0)) (netbuf_alloc_size 60 netbuf_init).1)
      (PoolSteps.frees (BufPtr.small 0) _ (PoolSteps.allocs 60 _ PoolSteps.init))
