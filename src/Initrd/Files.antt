-- ===== src/Initrd/Files.antt =====
-- `init`: the root, dev, and the children that stand for the headers of the image.
use experimental_kernel.Common.{
  ℕ, ◌+◌, ◌*◌, ◌^◌, ◌≤◌, ◌<◌, ◌≡◌, refl, ap, ◌∙◌, ◌⊎◌, false, some, List, [], ◌∷◌, arith, length,
}
use experimental_kernel.Memory.{Mem, read32, memset}
use experimental_kernel.Memory.Bytes.{memset-within, within}
use experimental_kernel.Array.{Array}
use experimental_kernel.Cstring.{strncpy}
use experimental_kernel.Cstring.Text.{Text, Text-frame}
use experimental_kernel.Initrd.{
  FileNode, Places, InitrdFs, node_bytes, header_bytes, no_children, init, init_loop,
}
use experimental_kernel.Initrd.Names.{IsBytes, Copies, strncpy-Copies, Text-nonzero}
use experimental_kernel.Initrd.Entries.{Entry, Headers, Headers-frame, moved, AllFit, Children}
use experimental_kernel.Initrd.Load.{Outside, init_loop-Loads}
use experimental_kernel.Initrd.Header.{Room}

-- "initrd" and "dev".
abbrev pub initrd_name : List ℕ
initrd_name = 105 ∷ 110 ∷ 105 ∷ 116 ∷ 114 ∷ 100 ∷ []

abbrev pub dev_name : List ℕ
dev_name = 100 ∷ 101 ∷ 118 ∷ []

-- `n` bytes from `a` and `k` bytes from `b` do not meet.
abbrev pub Apart : ℕ → ℕ → ℕ → ℕ → Type 0
Apart a n b k = (a + n ≤ b) ⊎ (b + k ≤ a)

-- Where `init` writes is apart from the texts and the headers.
pub record Layout (p : Places) (location n : ℕ) : Type 0 where
  pub room : Room p 0 (location + 4) n
  pub root_fits : p.root + 7 < 2 ^ 32
  pub dev_fits : p.dev + 4 < 2 ^ 32
  pub initrd_fits : p.initrd_text + 7 < 2 ^ 32
  pub dev_text_fits : p.dev_text + 4 < 2 ^ 32
  pub root_text : Apart p.root 7 p.initrd_text 7
  pub root_dev : Apart p.root 7 p.dev_text 4
  pub dev_dev : Apart p.dev 4 p.dev_text 4
  pub root_headers : Apart p.root 7 location (4 + header_bytes * n)
  pub dev_headers : Apart p.dev 4 location (4 + header_bytes * n)

-- The memory and the file system after `init`.
pub record Mounted (p : Places) (location : ℕ) (es : List Entry) (m m' : Mem) (fs : InitrdFs)
    : Type 0 where
  pub bytes : IsBytes m'
  pub headers_at : fs.headers_at ≡ location + 4
  pub headers_size : fs.headers_size ≡ length es
  pub places : fs.places ≡ p
  pub headers : Headers m' (location + 4) (moved location es)
  pub nodes : Children m' fs.children.cells p 0 es
  pub size : fs.children.size ≡ length es
  pub others :
      (a : ℕ)
      → Outside p 0 (location + 4) (length es) a
      → (a < p.root) ⊎ (p.root + 7 ≤ a)
      → (a < p.dev) ⊎ (p.dev + 4 ≤ a)
      → m' a ≡ m a

-- The memory before the loop.
record Cleared (p : Places) (n : ℕ) (m m' : Mem) : Type 0 where
  bytes : IsBytes m'
  others :
      (a : ℕ)
      → (a < p.children_at) ⊎ (p.children_at + node_bytes * n ≤ a)
      → (a < p.root) ⊎ (p.root + 7 ≤ a)
      → (a < p.dev) ⊎ (p.dev + 4 ≤ a)
      → m' a ≡ m a

names-Cleared :
    (p : Places) (location n : ℕ) (m : Mem)
    → IsBytes m
    → Text m p.initrd_text initrd_name
    → Text m p.dev_text dev_name
    → Layout p location n
    → Cleared p n m (
        memset p.children_at 0
          (n * node_bytes)
          (strncpy p.dev p.dev_text 3 (strncpy p.root p.initrd_text 6 m)))
names-Cleared p location n m bytes text_i text_d l =
    let c1 : Copies p.root p.initrd_text initrd_name m (strncpy p.root p.initrd_text 6 m) =
      strncpy-Copies p.root p.initrd_text 6 initrd_name m bytes refl (omega arith)
        (λ a lo hi. Text-nonzero m p.initrd_text a initrd_name text_i lo hi)
        (omega (arith, l.root_fits)) (omega (arith, l.initrd_fits)) (omega (arith, l.root_text)) in
    let m1 = strncpy p.root p.initrd_text 6 m in
    let text : Text m1 p.dev_text dev_name =
      Text-frame m m1 p.dev_text dev_name (λ a lo hi. c1.others a (omega (arith, l.root_dev)))
        text_d in
    let c2 : Copies p.dev p.dev_text dev_name m1 (strncpy p.dev p.dev_text 3 m1) =
      strncpy-Copies p.dev p.dev_text 3 dev_name m1 c1.bytes refl (omega arith)
        (λ a lo hi. Text-nonzero m1 p.dev_text a dev_name text lo hi) (omega (arith, l.dev_fits))
        (omega (arith, l.dev_text_fits)) (omega (arith, l.dev_dev)) in
    let m2 = strncpy p.dev p.dev_text 3 m1 in
    let at = memset-within p.children_at 0 (n * node_bytes) m2 (omega (arith, l.room.slots_fit)) in
    record {
      bytes = λ a. (rw (at a) (ground (arith, c2.bytes a)));
      others = λ a x y z.
          at a
          ∙ (let out : within p.children_at (n * node_bytes) a ≡ false = ground (arith, x) in
              rw out)
          ∙ c2.others a (omega (arith, z))
          ∙ c1.others a (omega (arith, y));
    }

abbrev mounted : Places → ℕ → ℕ → Array FileNode → InitrdFs
mounted p location n children = record {
  headers_at = location + 4;
  headers_size = n;
  places = p;
  children = children;
}

init_lem :
    (fuel location n : ℕ) (p : Places) (m m' : Mem) (children : Array FileNode)
    → read32 m location ≡ n
    → init_loop fuel location p n 0 (location + 4) (no_children n) (
        memset p.children_at 0
          (n * node_bytes)
          (strncpy p.dev p.dev_text 3 (strncpy p.root p.initrd_text 6 m)))
      ≡ some (m', children)
    → init fuel p location m ≡ some (m', mounted p location n children)
unfolding init
init_lem fuel location n p m m' children e1 e2 =
    rw (init, e1, e2) (ap (λ k. some (m', mounted p location k children)) e1)

-- `init` over an image with the headers of these entries ends with one child for each: its number, its
-- name, copied whole, and its length. The address of the image is added to each offset, and nothing is
-- written but the nodes and the offsets. The names fit with their terminators, the moved offsets are
-- words, and the nodes, the texts and the headers do not meet.
pub init-Mounted :
    (fuel location : ℕ) (p : Places) (es : List Entry) (m : Mem)
    → IsBytes m
    → read32 m location ≡ length es
    → Headers m (location + 4) es
    → AllFit location es
    → Text m p.initrd_text initrd_name
    → Text m p.dev_text dev_name
    → Layout p location (length es)
    → 64 ≤ fuel
    → (m' : Mem) × (fs : InitrdFs) × (init fuel p location m ≡ some (m', fs))
      × Mounted p location es m m' fs
init-Mounted fuel location p es m bytes count headers fit text_i text_d l fuelled =
    let m2 =
      memset p.children_at 0 (length es * node_bytes)
        (strncpy p.dev p.dev_text 3 (strncpy p.root p.initrd_text 6 m)) in
    let c = names-Cleared p location (length es) m bytes text_i text_d l in
    let headers2 : Headers m2 (location + 4) es =
      Headers-frame m m2 (location + 4) es
        (λ a lo hi.
          c.others a (omega (arith, l.room.slots_headers)) (omega (arith, l.root_headers))
            (omega (arith, l.dev_headers)))
        headers in
    let (m', children, done, loads) =
      init_loop-Loads fuel location p (location + 4) es (no_children (length es)) m2 c.bytes
        headers2 fit fuelled l.room (omega arith) (omega (arith, l.room.headers_fit)) in
    (
      m',
      mounted p location (length es) children,
      init_lem fuel location (length es) p m m' children count done,
      record {
        bytes = loads.bytes;
        headers_at = refl;
        headers_size = refl;
        places = refl;
        headers = loads.headers;
        nodes = loads.nodes;
        size = loads.size ∙ (let e : 0 + length es ≡ length es = omega arith in e);
        others = λ a out x y. loads.others a out ∙ c.others a (omega (arith, out.1)) x y;
      },
    )
