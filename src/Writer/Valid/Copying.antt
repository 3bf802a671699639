-- ===== src/Writer/Valid/Copying.antt =====
-- CopyFrom of mkfs.go keeps what holds of a Writer between two calls.
use go_erofs.Prelude.{
  ℕ, ◌≡◌, refl, Bool, true, false, not, ◌&&◌, if◌then◌else◌, Option, none, some, List, [], ◌∷◌, All,
  either_way, Bool-cases, inl, inr,
}
use go_erofs.Prelude.Bytes.{Bytes}
use go_erofs.Writer.{Reply, failed, done, Writer}
use go_erofs.Writer.Paths.{root_path, same_bytes, base, dir, clean_path}
use go_erofs.Writer.Tree.{remove, remove_children}
use go_erofs.Writer.Files.{OsWrite}
use go_erofs.Writer.Copy.{BuilderEntry}
use go_erofs.Writer.Copy.Walk.{
  Node, absolute, opaque_whiteout, whiteout_target, is_whiteout, apply_whiteout, gather,
  add_gathered, visit, then_walk, walk, Source, take_block_size, take_device, take_build_time,
  copy_from,
}
use go_erofs.Writer.Valid.{IsValid, carry-IsValid}
use go_erofs.Writer.Valid.Operations.{unless_failed-IsValid}
use go_erofs.Writer.Valid.Data.{set_block_size-IsValid}
use go_erofs.Writer.Valid.Adding.{add-IsValid}
use go_erofs.Writer.Valid.Reach.{remove-IsValid, remove_children-IsValid}

-- The file is no whiteout that names the root, such as one with the name ".wh." at the top of a source.
abbrev pub SparesRoot : Node → Type 0
SparesRoot node =
    let p = absolute node.fpath in
    (is_whiteout p && same_bytes (clean_path (whiteout_target p)) root_path) ≡ false

-- What is left of a conjunction whose first part holds.
second : (a b : Bool) → a ≡ true → (a && b) ≡ false → b ≡ false
second true b e h = h
second false b e h = absurd cc

last_part : (a b c : Bool) → (a && b && c) ≡ true → c ≡ true
last_part true true c h = h
last_part true false c h = absurd cc
last_part false b c h = absurd cc

abbrev IsKept : Reply (Unit {0}) × Writer → Type 0
IsKept r = IsValid r.1

apply_whiteout-IsValid :
    (p : Bytes) (w : Writer)
    → same_bytes (clean_path (whiteout_target p)) root_path ≡ false
    → IsValid w
    → IsValid (apply_whiteout p w)
unfolding apply_whiteout
apply_whiteout-IsValid p w spared h =
    either_way IsValid (same_bytes (base p) opaque_whiteout) (remove_children (dir p) w)
      (remove (whiteout_target p) w) (remove_children-IsValid (dir p) w h)
      (remove-IsValid (whiteout_target p) w spared h)

add_gathered-IsValid :
    (takes : OsWrite) (node : Node) (r : Reply BuilderEntry) (w : Writer)
    → IsValid w
    → IsKept (add_gathered takes node r w)
add_gathered-IsValid takes node (failed f) w h = h
add_gathered-IsValid takes node (done be) w h =
    add-IsValid takes (absolute node.fpath) node.mode node.size be w h

visit-IsValid :
    (takes : OsWrite) (node : Node) (w : Writer)
    → SparesRoot node
    → IsValid w
    → IsKept (visit takes node w)
unfolding visit
visit-IsValid takes node w spared h =
    let p = absolute node.fpath in
    let white = w.copy_merge && not (same_bytes p root_path) && is_whiteout p in
    elim (Bool-cases (not node.has_info)) [
      | inl e ↦ rw e h
      | inr e ↦ elim (Bool-cases white) [
        | inl k ↦
            rw (e, k)
              (apply_whiteout-IsValid p w
                (second (is_whiteout p) (same_bytes (clean_path (whiteout_target p)) root_path)
                  (last_part w.copy_merge (not (same_bytes p root_path)) (is_whiteout p) k) spared)
                h)
        | inr k ↦ rw (e, k) (add_gathered-IsValid takes node (gather w.copy_metadata_only node) w h)
      ]
    ]

then_walk-IsValid :
    (next : Writer → Reply (Unit {0}) × Writer)
    → ((w : Writer) → IsValid w → IsKept (next w))
    → (r : Reply (Unit {0}) × Writer) → IsKept r
    → IsKept (then_walk next r)
then_walk-IsValid next keeps (failed f, w) h = h
then_walk-IsValid next keeps (done u, w) h = keeps w h

walk-IsValid :
    (takes : OsWrite) (nodes : List Node) (w : Writer)
    → All SparesRoot nodes
    → IsValid w
    → IsKept (walk takes nodes w)
unfolding walk
walk-IsValid takes [] w spared h = h
walk-IsValid takes (node ∷ nodes) w spared h =
    then_walk-IsValid (walk takes nodes) (λ v k. walk-IsValid takes nodes v spared.1 k)
      (visit takes node w) (visit-IsValid takes node w spared.0 h)

take_block_size-IsValid : (o : Option ℕ) (w : Writer) → IsValid w → IsKept (take_block_size o w)
take_block_size-IsValid none w h = h
take_block_size-IsValid (some n) w h = set_block_size-IsValid n w h

take_device-IsValid : (o : Option ℕ) (w : Writer) → IsValid w → IsValid (take_device o w)
take_device-IsValid none w h = h
take_device-IsValid (some n) w h = carry-IsValid w (take_device (some n) w) refl refl h.sized h

take_build_time-IsValid : (o : Option ℕ) (w : Writer) → IsValid w → IsValid (take_build_time o w)
take_build_time-IsValid none w h = h
take_build_time-IsValid (some t) w h =
    let v = record w { build_time = t; has_build_time = true } in
    either_way IsValid w.has_build_time w v h (carry-IsValid w v refl refl h.sized h)

-- CopyFrom of a source that is not an image, with any options and whether it fails or not, keeps byPath
-- the index of the entries that are not removed, and all else that holds of a Writer between two
-- calls, if no file of the source is a whiteout whose target is the root.
pub copy_from-IsValid :
    (takes : OsWrite) (src : Source) (metadata_only merge : Bool) (w : Writer)
    → All SparesRoot src.nodes
    → IsValid w
    → IsValid (copy_from takes src metadata_only merge w).1
unfolding copy_from
copy_from-IsValid takes src metadata_only merge w spared h =
    let reset = record w {
      copy_metadata_only = metadata_only;
      copy_merge = merge;
      copy_device_id = 0;
    } in
    let next : Writer → Reply (Unit {0}) × Writer = λ v. walk takes src.nodes (
      take_build_time src.build_time
        (if metadata_only then take_device src.device_blocks v else v)) in
    unless_failed-IsValid w.w_err w (then_walk next (take_block_size src.block_size reset)) h (
      then_walk-IsValid next
        (λ v k.
          walk-IsValid takes src.nodes
            (take_build_time src.build_time
              (if metadata_only then take_device src.device_blocks v else v))
            spared
            (take_build_time-IsValid src.build_time
              (if metadata_only then take_device src.device_blocks v else v)
              (either_way IsValid metadata_only (take_device src.device_blocks v) v
                (take_device-IsValid src.device_blocks v k) k)))
        (take_block_size src.block_size reset)
        (take_block_size-IsValid src.block_size reset (carry-IsValid w reset refl refl h.sized h)))
