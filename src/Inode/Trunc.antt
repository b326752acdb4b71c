-- ===== src/Inode/Trunc.antt =====
-- itrunc of fs.c.
pub mod Among
pub mod Freed
use mathlib.Core.Path.{fun_ext}
use cs461_hw.Prelude.{
  ◌*◌, sym, ◌∙◌, [], ◌∷◌, ℕ_discrete, ℕ, zero, suc, ◌+◌, ◌%◌, ◌≤◌, ◌<◌, ◌≡◌, refl, ap, ◌≢◌, Bool,
  true, false, ◌&&◌, ◌||◌, none, some, ◌++◌, arith, ◌==◌, if◌then◌else◌, not,
}
use cs461_hw.Fs.{Disk, bfree, bblock, bpb, put_bit}
use cs461_hw.Fs.Bitmap.{bfree_used, is_used-put_bit}
use cs461_hw.Fs.Scan.{is_used}
use cs461_hw.Inode.{
  put_block, dinode_words, ipb, put_words, write_block, iblock, State, M, pure, ◌>>=◌, ◌>>◌, Inode,
  iupdate, put_addr, word_at, ok, panic, bread, ndirect, nindirect,
}
use cs461_hw.Inode.Slots.{slot-entry, slot-table, slot-direct, slot, IsValid, Ready}

module _ (size bmapstart inodestart : ℕ) where
  -- `bfree`, with the block that it logs.
  pub free_block : ℕ → M (Unit {0})
  free_block b st = elim (bfree bmapstart st.disk b) [
    | none ↦ panic st
    | some (d, bs) ↦ ok tt (record st { disk = d; logged = st.logged ++ bs })
  ]

  -- The loop of `itrunc` over the direct blocks.
  pub trunc_direct : ℕ → Inode → ℕ → M Inode
  trunc_direct zero ip i = pure ip
  trunc_direct (suc left) ip i =
      let freed = do
        free_block (ip.addrs i)
        trunc_direct left (record ip { addrs = put_addr ip.addrs i 0 }) (i + 1)
      in if ip.addrs i == 0 then trunc_direct left ip (i + 1) else freed

  -- The loop over the entries of the indirect block. `a` points into the block's buffer.
  pub trunc_entries : ℕ → ℕ → ℕ → M (Unit {0})
  trunc_entries zero table j = pure tt
  trunc_entries (suc left) table j = do
    a ← bread table
    let freed = do free_block (word_at a j); trunc_entries left table (j + 1)
    if word_at a j == 0 then trunc_entries left table (j + 1) else freed

  pub trunc_table : Inode → M Inode
  trunc_table ip =
      let freed = do
        trunc_entries nindirect (ip.addrs ndirect) 0
        free_block (ip.addrs ndirect)
        pure (record ip { addrs = put_addr ip.addrs ndirect 0 })
      in if ip.addrs ndirect == 0 then pure ip else freed

  pub itrunc : ℕ → Inode → M Inode
  itrunc inum ip = do
    ip' ← trunc_direct ndirect ip 0
    ip'' ← trunc_table ip'
    let empty = record ip'' { size = 0 }
    iupdate size bmapstart inodestart inum empty
    pure empty
