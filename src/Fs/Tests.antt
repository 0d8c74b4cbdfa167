-- ===== src/Fs/Tests.antt =====
-- An image of 100 blocks, of which the first 47 are in use, and an empty inode.
use operating_systems.Prelude.{
  ℕ, ◌+◌, ◌*◌, ◌≡◌, refl, arith, ◌&&◌, ◌==◌, ltb, some, none, List, [], ◌∷◌, inl, ap,
}
use operating_systems.Fs.{Superblock, Disk, bblock, balloc, balloc_from, free_bit, of_bits, bit_of}
use operating_systems.Fs.Bitmap.{in_use, IsSound, Allocates, balloc-Allocates}
use operating_systems.Fs.Inode.{Inode, Mapped, done, panics, starved, load_addr, load_word, bmap}
use operating_systems.Fs.Inode.Owned.{IsOwned}
use operating_systems.Fs.Inode.Hang.{MapsTo}
use operating_systems.Fs.Inode.Blocks.{bmap-MapsTo}
use operating_systems.Fs.Path.{path_names, skipelem, skip_slashes, element}
use operating_systems.Fs.Names.{components, path_names-components}

abbrev image : Superblock
image = record { size = 100; bmapstart = 45 }

abbrev disk : Disk
disk = record { bits = λ b i k. b == 45 && ltb (i * 8 + k) 47; logged = [] }

abbrev empty : Inode
empty = record { size = 0; addrs = λ i. 0 }

disk-IsSound : IsSound image disk
disk-IsSound b h =
    let e : bblock image b ≡ 45 = omega arith in (omega arith, ap (in_use image disk) e)

least_free :
    balloc image 2 disk ≡ some (47, (elim (balloc image 2 disk) [ none ↦ disk | some (r, t) ↦ t ]))
unfolding balloc balloc_from free_bit
least_free = refl

balloc-Allocates_example : Allocates image disk (balloc image 2 disk)
balloc-Allocates_example = balloc-Allocates image 2 disk disk-IsSound (omega arith)

empty-IsOwned : IsOwned image disk empty
empty-IsOwned = record {
  sound = disk-IsSound;
  some_block = omega arith;
  small = omega arith;
  boot = refl;
  indirect = inl refl;
  direct = λ k h. inl (ground arith);
  apart = λ k h n e. n (ground arith);
  distinct = λ j k hj hk e n. absurd (n (ground arith));
}

-- The first block behind the direct ones takes an indirect block and a block.
bmap-MapsTo_example : MapsTo image 12 disk empty (bmap image 2 empty 12 disk)
bmap-MapsTo_example = bmap-MapsTo image 2 (omega arith) 12 disk empty empty-IsOwned

-- The block that `bmap` of block 12 takes, and what it finds there the next time.
abbrev taken : Mapped → ℕ × ℕ
taken (done r jp t) = elim (bmap image 2 jp 12 t) [
  | done again kp u ↦ (r, again)
  | panics ↦ (r, 0)
  | starved ↦ (r, 0)
]
taken panics = (0, 0)
taken starved = (0, 0)

twice : taken (bmap image 2 empty 12 disk) ≡ (48, 48)
unfolding bmap load_addr load_word balloc balloc_from free_bit of_bits bit_of
twice = refl

-- "//ab/c"
abbrev path : List ℕ
path = 47 ∷ 47 ∷ 97 ∷ 98 ∷ 47 ∷ 99 ∷ []

two_names : path_names 7 path ≡ some ((97 ∷ 98 ∷ []) ∷ (99 ∷ []) ∷ [])
unfolding path_names skipelem skip_slashes element
two_names = refl

path_names-components_example : path_names 7 path ≡ some (components path)
path_names-components_example = path_names-components 7 path (omega arith)
