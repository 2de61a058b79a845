-- ===== src/Initrd/Tests.antt =====
-- An image with the file "a" of the bytes "hi", at 4096, with the texts "initrd", "dev" and "a" at
-- 100, 107 and 111.
use experimental_kernel.Common.{
  ℕ, zero, suc, ◌+◌, ◌-◌, ◌<◌, ◌≡◌, refl, sym, ap, ◌∙◌, ◌⊎◌, Bool, true, ◌&&◌, Option, none, some,
  List, [], ◌∷◌, ◌++◌, arith, ltb, leb, ◌==◌, if◌then◌else◌, get_or, replicate,
}
use experimental_kernel.Memory.{Mem, read32}
use experimental_kernel.Cstring.Text.{Text}
use experimental_kernel.Initrd.{InitrdFs, Places, read, finddir, child}
use experimental_kernel.Initrd.Names.{IsBytes}
use experimental_kernel.Initrd.Entries.{Entry, Headers, child_of}
use experimental_kernel.Initrd.Files.{Layout, initrd_name, dev_name}
use experimental_kernel.Initrd.Lookup.{finddir-find_entry}
use experimental_kernel.Initrd.Contents.{read-Text}
use experimental_kernel.Initrd.Image.{
  file_name, make_nodes, make_image, word, write_nodes, write_contents,
}
use experimental_kernel.Initrd.Packed.{Supply, Holds}
use experimental_kernel.Initrd.Listing.{Lists, listing, readdir-Lists}
use experimental_kernel.Initrd.{readdir}
use experimental_kernel.Initrd.Vfs.{directory, file, show_files}
use experimental_kernel.Initrd.Contained.{show_files-shown_files}
use experimental_kernel.Initrd.Mount.{ReadsBack, make_image-ReadsBack}

abbrev texts : List ℕ
texts = initrd_name ++ (0 ∷ dev_name ++ (0 ∷ 97 ∷ 0 ∷ []))

-- The image with the offset of its file.
abbrev packed : ℕ → List ℕ
packed offset =
    word 1 ++ ((171 ∷ 97 ∷ replicate 63 0) ++ (word offset ++ (word 2 ++ (104 ∷ 105 ∷ []))))

abbrev memory : ℕ → Mem
memory offset x =
    if leb 4096 x then get_or (packed offset) (x - 4096) 0 else get_or texts (x - 100) 0

abbrev bytes : List ℕ → Bool
bytes [] = true
bytes (x ∷ xs) = ltb x 256 && bytes xs

bytes-get_or : (xs : List ℕ) (i : ℕ) → bytes xs ≡ true → get_or xs i 0 < 256
bytes-get_or [] i e = omega arith
bytes-get_or (x ∷ xs) zero e = ground (arith, e)
bytes-get_or (x ∷ xs) (suc i) e = bytes-get_or xs i (ground (arith, e))

memory-IsBytes : (offset : ℕ) → bytes (packed offset) ≡ true → IsBytes (memory offset)
memory-IsBytes offset e a =
    ground (arith, bytes-get_or (packed offset) (a - 4096) e, bytes-get_or texts (a - 100) refl)

get_or-Holds :
    (m : Mem) (a : ℕ) (xs : List ℕ) → ((k : ℕ) → m (a + k) ≡ get_or xs k 0) → Holds m a xs
get_or-Holds m a [] at = tt
get_or-Holds m a (x ∷ xs) at = (
  (let e : a + 0 ≡ a = omega arith in ap m (sym e) ∙ at 0),
  get_or-Holds m (a + 1) xs
      (λ k. (let e : a + 1 + k ≡ a + suc k = omega arith in ap m e ∙ at (suc k))),
)

memory-Holds : (offset : ℕ) → Holds (memory offset) 4096 (packed offset)
memory-Holds offset = get_or-Holds (memory offset) 4096 (packed offset) (λ k.
    let e : 4096 + k - 4096 ≡ k = omega arith in
    let above : leb 4096 (4096 + k) ≡ true = ground arith in rw (above, e) refl)

abbrev places : Places
places = record {
  root = 20000;
  dev = 21000;
  children_at = 30000;
  child_node = 40000;
  initrd_text = 100;
  dev_text = 107;
}

layout : Layout places 4096 1
layout = record {
  room = record {
    headers_fit = omega arith;
    slots_fit = omega arith;
    local_fits = omega arith;
    local_headers = omega arith;
    slots_headers = omega arith;
    local_slots = omega arith;
  };
  root_fits = omega arith;
  dev_fits = omega arith;
  initrd_fits = omega arith;
  dev_text_fits = omega arith;
  root_text = omega arith;
  root_dev = omega arith;
  dev_dev = omega arith;
  root_headers = omega arith;
  dev_headers = omega arith;
}

initrd_Text : Text (memory 77) 100 initrd_name
initrd_Text = (
  refl,
  omega arith,
  omega arith,
  (
    refl,
    omega arith,
    omega arith,
    (
      refl,
      omega arith,
      omega arith,
      (
        refl,
        omega arith,
        omega arith,
        (refl, omega arith, omega arith, (refl, omega arith, omega arith, refl)),
      ),
    ),
  ),
)

dev_Text : (offset : ℕ) → Text (memory offset) 107 dev_name
dev_Text offset = (
  refl,
  omega arith,
  omega arith,
  (refl, omega arith, omega arith, (refl, omega arith, omega arith, refl)),
)

abbrev a_name : List ℕ
a_name = 97 ∷ []

abbrev entry_a : ℕ → Entry
entry_a offset = record { name = a_name; offset = offset; size = 2 }

entry_a-Headers :
    (offset : ℕ)
    → read32 (memory offset) 4165 ≡ offset
    → Headers (memory offset) 4100 (entry_a offset ∷ [])
unfolding read32
entry_a-Headers offset e = ((refl, omega arith, omega arith, refl), omega arith, e, refl, tt)

-- A child of the root whose name stands at 111.
abbrev near : Places
near = record places { children_at = 111 }

abbrev mounted : InitrdFs
mounted = record {
  headers_at = 4100;
  headers_size = 1;
  places = near;
  children = record { cells = λ i. child_of near 0 (entry_a 4173); size = 1; max_size = 1 };
}

finddir-find_entry_example :
    finddir 64 mounted 20000 111 (memory 4173) ≡ some (child (child_of near 0 (entry_a 4173)))
finddir-find_entry_example =
    finddir-find_entry 64 20000 111 a_name (entry_a 4173 ∷ []) mounted (memory 4173)
      (memory-IsBytes 4173 refl) (refl, omega arith, omega arith, refl) (omega arith) (omega arith)
      (refl, (refl, omega arith, omega arith, refl), tt) refl (omega arith) (dev_Text 4173)
      (omega arith)

read-Text_example :
    (m' : Mem) × (read mounted (child_of near 0 (entry_a 4173)) 1 5 50000 (memory 4173)
      ≡ some (m', 1))
    × Text m' 50000 (105 ∷ [])
    × IsBytes m'
    × ((a : ℕ) → (a < 50000) ⊎ (50005 < a) → m' a ≡ memory 4173 a)
unfolding read32
read-Text_example =
    read-Text mounted (child_of near 0 (entry_a 4173)) 1 5 50000 0 (memory 4173) (entry_a 4173 ∷ [])
      (entry_a 4173) (104 ∷ 105 ∷ []) (memory-IsBytes 4173 refl) (entry_a-Headers 4173 refl) refl
      (omega arith) refl refl (refl, omega arith, omega arith, (refl, omega arith, omega arith, tt))
      refl (omega arith) (omega arith) (omega arith) (omega arith) (omega arith) (omega arith)

readdir-Lists_example :
    Lists 60000
      (memory 4173)
      (readdir 64 mounted 20000 1 60000 (memory 4173))
      (listing (entry_a 4173 ∷ []) 1)
readdir-Lists_example =
    readdir-Lists 64 1 60000 (entry_a 4173 ∷ []) mounted (memory 4173) (memory-IsBytes 4173 refl)
      (refl, (refl, omega arith, omega arith, refl), tt) refl (omega arith, tt) (dev_Text 4173)
      (omega arith) (omega arith) (omega arith) (omega arith) (omega arith) (omega arith)
      (omega arith)

-- The host has the file "a" alone, and is given the path "x/a".
abbrev host : List ℕ → Option (List ℕ)
host [] = none
host (x ∷ name) = if x == 97 then some (104 ∷ 105 ∷ []) else none

abbrev supply : Supply
supply = record { path = 120 ∷ 47 ∷ 97 ∷ []; content = 104 ∷ 105 ∷ [] }

packs : make_image host ((120 ∷ 47 ∷ 97 ∷ []) ∷ []) ≡ some (packed 77)
unfolding make_image make_nodes write_nodes write_contents file_name
packs = refl

make_image-ReadsBack_example :
    (m' : Mem) × (g : Mem) × (fs : InitrdFs) × ReadsBack 64 4096 50000 0 places supply
      (memory 77)
      m'
      g
      fs
unfolding file_name
make_image-ReadsBack_example =
    make_image-ReadsBack host 64 4096 50000 0 places (supply ∷ []) supply (packed 77) (memory 77)
      (omega arith, omega arith, (omega arith, omega arith, tt), refl, tt) (omega arith) packs
      (memory-Holds 77) (memory-IsBytes 77 refl) initrd_Text (dev_Text 77)
      (record {
        layout = layout;
        fits = omega arith;
        root_image = omega arith;
        dev_image = omega arith;
        local_image = omega arith;
        slots_image = omega arith;
      })
      (omega arith) refl (omega arith, omega arith, (omega arith, omega arith, tt)) (omega arith)
      (omega arith) (omega arith)

show_files-shown_files_example :
    (m' : Mem) × (show_files 3 64 mounted 0 60000 50000 (memory 4173)
      ≡ some (m', directory dev_name ∷ file a_name (104 ∷ 105 ∷ []) ∷ []))
unfolding file_name read32
show_files-shown_files_example =
    show_files-shown_files mounted 4096 77 60000 50000 64 3 (supply ∷ []) (memory 4173)
      (record {
        size = refl;
        headers_size = refl;
        distinct = (tt, (omega arith, omega arith, (omega arith, omega arith, tt)), tt);
        no_dev = (refl, tt);
        short = (omega arith, tt);
        fuelled = omega arith;
        dirent_free = record {
          fits = omega arith;
          headers = omega arith;
          nodes = omega arith;
          dev = omega arith;
          contents = omega arith;
        };
        buf_free = record {
          fits = omega arith;
          headers = omega arith;
          nodes = omega arith;
          dev = omega arith;
          contents = omega arith;
        };
        count_fits = omega arith;
        slots_fit = omega arith;
        dirent_fits = omega arith;
        dev_fits = omega arith;
        contents_fit = omega arith;
      })
      (record {
        bytes = memory-IsBytes 4173 refl;
        headers = entry_a-Headers 4173 refl;
        nodes = (refl, (refl, omega arith, omega arith, refl), tt);
        dev = dev_Text 4173;
        held = (refl, (refl, tt));
      })
      (omega arith)
