-- ===== src/World/Heap.antt =====
-- Laws of a write to the heap of Client objects.
use aedes.Common.{ℕ, ◌≡◌, ◌==◌, false, arith}
use aedes.World.{Client}
use aedes.World.Steps.{update}

pub update_self : (heap : ℕ → Client) (c : ℕ) (v : Client) → update heap c v c ≡ v
update_self heap c v = ground arith

pub update_other :
    (heap : ℕ → Client) (c : ℕ) (v : Client) (i : ℕ) → (i == c) ≡ false → update heap c v i ≡ heap i
update_other heap c v i e = ground arith
