-- ===== src/Image/Plan/Placement.antt =====
-- Where planLayout puts the inodes.
use native.Mathlib.Nat.{mul-mod_left}
use go_erofs.Prelude.{
  ℕ, ◌+◌, ◌-◌, ◌*◌, ◌/◌, ◌%◌, ◌≤◌, ◌<◌, ◌≡◌, ◌==◌, refl, sym, ap, ◌∙◌, ltb, List, [], ◌∷◌,
  if◌then◌else◌, arith, Bool-cases, inl, inr, ◌&&◌,
}
use go_erofs.Disk.{layout_flat_inline, layout_flat_plain}
use go_erofs.Image.{entry_chunk_size, ErofsEntry, ErofsWriter, inode_core_size, align_up, padded}
use go_erofs.Image.Rounding.{le-align_up, align_up-lt, align_up-mod, padded_bounds}
use go_erofs.Image.Plan.{
  calc_trailing_size, fits_compact, choose_layout, keep_in_block, plan_entry, plan_entries,
  plan_layout,
}
use go_erofs.Xattr.{calc_xattr_size}

-- A block size that setBlockSize lets through is a multiple of 32, and has room for any inode.
pub record IsBlockSize (bs : ℕ) : Type 0 where
  pub units : ℕ
  pub in_units : bs ≡ 32 * units
  pub min : 512 ≤ bs

-- The bytes of the metadata area that belong to an entry, up to the padding.
abbrev pub extent : ErofsEntry → ℕ
extent e = inode_core_size e + e.xattr_size + e.trailing_size

-- The offset that the entry's nid stands for.
abbrev pub offset_of : ErofsEntry → ℕ
offset_of e = e.nid * 32

-- What holds of one entry that may be placed from `off` on.
pub record IsPlaced (w : ErofsWriter) (off : ℕ) (e : ErofsEntry) : Type 0 where
  pub behind : off ≤ offset_of e
  pub near : offset_of e < off + w.block_size
  pub core_in_block : offset_of e % w.block_size + inode_core_size e ≤ w.block_size
  pub inline_in_block :
      e.layout ≡ layout_flat_inline → offset_of e % w.block_size + extent e ≤ w.block_size
  pub trailing : e.trailing_size ≡ calc_trailing_size w e
  pub attributes : e.xattr_size ≡ calc_xattr_size e.xattrs

-- The entries follow one another with no overlap.
abbrev pub ArePlaced : ErofsWriter → ℕ → List ErofsEntry → Type 0
ArePlaced w off [] = Unit
ArePlaced w off (e ∷ es) = IsPlaced w off e × ArePlaced w (offset_of e + padded (extent e)) es

module _ (w : ErofsWriter) where
  choose_layout-keeps :
      (cur header_size : ℕ) (e : ErofsEntry)
      → ((choose_layout w cur header_size e).compact ≡ e.compact)
        × ((choose_layout w cur header_size e).xattr_size ≡ e.xattr_size)
        × ((choose_layout w cur header_size e).xattrs ≡ e.xattrs)
  unfolding choose_layout
  choose_layout-keeps cur header_size e = ground arith

  calc_trailing_size-nid :
      (e : ErofsEntry) (nid size : ℕ)
      → calc_trailing_size w (record e { nid = nid; trailing_size = size }) ≡ calc_trailing_size w e
  unfolding calc_trailing_size entry_chunk_size
  calc_trailing_size-nid e nid size = refl

  -- What the last step of the loop's round leaves: the position, and data that fits where it is inline.
  record IsKept (at header_size : ℕ) (e f : ErofsEntry) : Type 0 where
    nid : f.nid ≡ e.nid
    core : inode_core_size f ≡ inode_core_size e
    xattrs : f.xattr_size ≡ e.xattr_size
    same_xattrs : f.xattrs ≡ e.xattrs
    trailing : f.trailing_size ≡ calc_trailing_size w f
    fits :
        f.layout ≡ layout_flat_inline
        → at % w.block_size + header_size + f.trailing_size ≤ w.block_size

  keep_in_block-IsKept :
      (at header_size : ℕ) (e : ErofsEntry)
      → e.trailing_size ≡ calc_trailing_size w e
      → IsKept at header_size e (keep_in_block w at header_size e)
  unfolding keep_in_block inode_core_size
  keep_in_block-IsKept at header_size e h =
      let plain = record e { layout = layout_flat_plain } in
      let spills =
        e.layout == layout_flat_inline
        && ltb w.block_size (at % w.block_size + header_size + e.trailing_size) in
      elim (Bool-cases spills) [
        | inl s ↦ rw s (record {
          nid = refl;
          core = refl;
          xattrs = refl;
          same_xattrs = refl;
          trailing = sym (calc_trailing_size-nid plain plain.nid (calc_trailing_size w plain));
          fits = λ i. absurd (omega arith);
        })
        | inr s ↦ rw s (record {
          nid = refl;
          core = refl;
          xattrs = refl;
          same_xattrs = refl;
          trailing = h;
          fits = λ i. ground arith;
        })
      ]

  module _ (valid : IsBlockSize w.block_size) where
    align_up_units : (x : ℕ) → align_up w.block_size x % 32 ≡ 0
    align_up_units x =
        let q = (x + w.block_size - 1) / w.block_size in
        let e : q * w.block_size ≡ q * valid.units * 32 =
          omega (arith, ap (λ (t : ℕ). q * t) valid.in_units) in
        rw e (mul-mod_left (q * valid.units) 32)

    -- The position that the block-boundary check leaves.
    abbrev position : ℕ → ℕ → ℕ
    position cur inode_size =
        if ltb w.block_size (cur % w.block_size + inode_size)
        then align_up w.block_size cur
        else cur

    record IsPosition (cur inode_size at : ℕ) : Type 0 where
      behind : cur ≤ at
      near : at < cur + w.block_size
      unit : at % 32 ≡ 0
      in_block : at % w.block_size + inode_size ≤ w.block_size

    position-IsPosition :
        (cur inode_size : ℕ)
        → cur % 32 ≡ 0
        → inode_size ≤ 64
        → IsPosition cur inode_size (position cur inode_size)
    position-IsPosition cur inode_size u h =
        let bs_pos : 0 < w.block_size = omega (arith, valid.min) in
        elim (Bool-cases (ltb w.block_size (cur % w.block_size + inode_size))) [
          | inl e ↦ rw e (record {
            behind = le-align_up w.block_size cur bs_pos;
            near = align_up-lt w.block_size cur bs_pos;
            unit = align_up_units cur;
            in_block = omega (arith, align_up-mod w.block_size cur bs_pos, valid.min);
          })
          | inr e ↦ rw e (record {
            behind = omega arith;
            near = omega arith;
            unit = u;
            in_block = ground arith;
          })
        ]

    inode_core_size_bounds : (e : ErofsEntry) → (32 ≤ inode_core_size e) × (inode_core_size e ≤ 64)
    unfolding inode_core_size
    inode_core_size_bounds e = ground arith

    -- The round's result from its two parts: the position and the check of inline data.
    placed :
        (cur inode_size at header_size : ℕ) (e f : ErofsEntry)
        → IsPosition cur inode_size at
        → e.nid ≡ at / 32
        → inode_core_size e ≡ inode_size
        → header_size ≡ inode_size + e.xattr_size
        → e.xattr_size ≡ calc_xattr_size e.xattrs
        → IsKept at header_size e f
        → IsPlaced w cur f
          × (at + padded (header_size + f.trailing_size) ≡ offset_of f + padded (extent f))
          × ((at + padded (header_size + f.trailing_size)) % 32 ≡ 0)
    placed cur inode_size at header_size e f pos en ec eh ex k =
        let off : offset_of f ≡ at = omega (arith, pos.unit, k.nid) in
        let core : inode_core_size f ≡ inode_size = k.core ∙ ec in
        let ext : extent f ≡ header_size + f.trailing_size = omega (arith, k.xattrs) in
        (
          record {
            behind = rw off pos.behind;
            near = rw off pos.near;
            core_in_block = rw (off, core) pos.in_block;
            inline_in_block = λ i. rw off (omega (arith, k.fits i));
            trailing = k.trailing;
            attributes = k.xattrs ∙ ex ∙ ap calc_xattr_size (sym k.same_xattrs);
          },
          rw (off, ext) refl,
          omega (arith, pos.unit, padded_bounds (header_size + f.trailing_size)),
        )

    plan_entry-IsPlaced :
        (cur : ℕ) (e : ErofsEntry)
        → cur % 32 ≡ 0
        → IsPlaced w cur (plan_entry w cur e).entry
          × ((plan_entry w cur e).next_off
              ≡ offset_of (plan_entry w cur e).entry + padded (extent (plan_entry w cur e).entry))
          × ((plan_entry w cur e).next_off % 32 ≡ 0)
    unfolding plan_entry
    plan_entry-IsPlaced cur e u =
        let sized = record e {
          nid = cur / 32;
          xattr_size = calc_xattr_size e.xattrs;
          compact = fits_compact w e;
        } in
        let inode_size = inode_core_size sized in
        let header_size = inode_size + sized.xattr_size in
        let laid = choose_layout w cur header_size sized in
        let at = position cur inode_size in
        let placed_entry = record laid {
          nid = at / 32;
          trailing_size = calc_trailing_size w laid;
        } in
        let (same_compact, same_xattr, same_map) = choose_layout-keeps cur header_size sized in
        placed cur inode_size at header_size placed_entry
          (keep_in_block w at header_size placed_entry)
          (position-IsPosition cur inode_size u (inode_core_size_bounds sized).1) refl
          (unfold inode_core_size in rw same_compact) (rw same_xattr)
          (same_xattr ∙ ap calc_xattr_size (sym same_map))
          (keep_in_block-IsKept at header_size placed_entry
            (sym (calc_trailing_size-nid laid (at / 32) (calc_trailing_size w laid))))

    plan_entries-ArePlaced :
        (cur : ℕ) (es : List ErofsEntry) → cur % 32 ≡ 0 → ArePlaced w cur (plan_entries w cur es)
    unfolding plan_entries
    plan_entries-ArePlaced cur [] u = tt
    plan_entries-ArePlaced cur (e ∷ es) u =
        let (here, next, unit) = plan_entry-IsPlaced cur e u in
        (here, rw (← next) (plan_entries-ArePlaced (plan_entry w cur e).next_off es unit))

    -- With a block size that is a multiple of 32 and at least 512, the entries of the planned layout
    -- lie one behind another from the start of the metadata area: each inode begins at or behind the
    -- end of the one before, padded to 32 bytes, and less than a block behind it; its core does not
    -- cross a block's end, nor does its header with its data if the layout is inline; and the data
    -- behind the header and the attributes' area have the sizes that calcTrailingSize and
    -- calcXattrSize give for the final entry.
    pub plan_layout-ArePlaced : ArePlaced w 0 (plan_layout w).entries
    unfolding plan_layout
    plan_layout-ArePlaced = plan_entries-ArePlaced 0 w.entries refl

    -- The writer that the plan is for differs in its entries alone.
    plan_layout-ArePlaced_planned :
        (off : ℕ) (es : List ErofsEntry) → ArePlaced w off es → ArePlaced (plan_layout w) off es
    unfolding plan_layout calc_trailing_size entry_chunk_size
    plan_layout-ArePlaced_planned off [] p = tt
    plan_layout-ArePlaced_planned off (e ∷ es) (p, ps) = (
      record {
        behind = p.behind;
        near = p.near;
        core_in_block = p.core_in_block;
        inline_in_block = p.inline_in_block;
        trailing = p.trailing;
        attributes = p.attributes;
      },
      plan_layout-ArePlaced_planned (offset_of e + padded (extent e)) es ps,
    )

    pub plan_layout-ArePlaced_self : ArePlaced (plan_layout w) 0 (plan_layout w).entries
    plan_layout-ArePlaced_self =
        plan_layout-ArePlaced_planned 0 (plan_layout w).entries plan_layout-ArePlaced
