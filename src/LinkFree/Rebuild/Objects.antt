-- ===== src/LinkFree/Rebuild/Objects.antt =====
-- The two loops of `recover` of LinkFree/LinkFreeList.h as one, over the objects of all chunks.
use efficient_lock_free_dura.Common.{ℕ, zero, suc, ◌+◌, ◌≡◌, ◌∙◌, sym, ap, refl, List, [], ◌∷◌}
use efficient_lock_free_dura.Common.Prog.{◌>>◌}
use efficient_lock_free_dura.Common.Objects.{chunk_objects, objects, each, each-append}
use efficient_lock_free_dura.LinkFree.Memory.{Ptr, Cmd}
use efficient_lock_free_dura.LinkFree.Recovery.{recover_node, recover_chunk, recover}

module _ (rounds walk : ℕ) (head : Ptr) where
  abbrev pub each_node : List Ptr → Cmd (Unit {0})
  each_node = each (recover_node rounds walk head)

  recover_chunk-each :
      (size count : ℕ) (p : Ptr)
      → recover_chunk rounds walk head size count p ≡ each_node (chunk_objects size count p)
  unfolding recover_chunk
  recover_chunk-each size zero p = refl
  recover_chunk-each size (suc count) p =
      ap (λ r. recover_node rounds walk head p >> r) (recover_chunk-each size count (p + size))

  pub recover-each :
      (size count : ℕ) (chunks : List Ptr)
      → recover rounds walk head size count chunks ≡ each_node (objects size count chunks)
  unfolding recover
  recover-each size count [] = refl
  recover-each size count (chunk ∷ rest) =
      ap (λ r. recover_chunk rounds walk head size count chunk >> r) (recover-each size count rest)
      ∙ ap (λ r. r >> each_node (objects size count rest)) (recover_chunk-each size count chunk)
      ∙ sym (
          each-append (recover_node rounds walk head) (chunk_objects size count chunk)
            (objects size count rest))
