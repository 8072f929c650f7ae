-- ===== src/Transport/NonceFile/Tests.antt =====
-- Calls on a file that is there, with a lock that is refused and a folder that fails to sync.
use localscale.Prelude.{true, false, some, List, [], ◌∷◌, ◌++◌, arith, codes, replicate}
use localscale.Codec.Hex.{hex}
use localscale.Transport.NonceFile.{
  Environment, FileNonceAllocator, done, failed_after_rename, allocate_all,
}
use localscale.Transport.NonceFile.Increase.{IsIncreasing, allocate_all-IsIncreasing}

abbrev allocator : FileNonceAllocator
allocator = record {
  file = some (hex (replicate 23 8 ++ 255 ∷ []) ++ codes "\n");
  next = replicate 24 0;
}

abbrev quiet : Environment
quiet = record { is_locked = true; is_readable = true; random = replicate 24 3; persisted = done }

abbrev environments : List Environment
environments =
    quiet
    ∷ record quiet { is_locked = false }
    ∷ record quiet { persisted = failed_after_rename }
    ∷ quiet
    ∷ []

allocate_all-IsIncreasing_example : IsIncreasing 0 (allocate_all allocator environments)
allocate_all-IsIncreasing_example = allocate_all-IsIncreasing environments allocator (omega arith)
