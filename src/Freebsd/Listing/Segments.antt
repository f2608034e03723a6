-- ===== src/Freebsd/Listing/Segments.antt =====
-- freebsd/list_devices.c: the linked list in the store, and what is read of it.
use aaruremote.Common.{
  ℕ, zero, suc, ◌+◌, ◌<◌, ◌≡◌, ◌≢◌, refl, sym, ap, ◌∙◌, Bool, true, false, Option, none, some, List,
  [], ◌∷◌, ◌++◌, length, ◌==◌, if◌then◌else◌, eq→==, ◌-◌, arith,
}
use aaruremote.Protocol.Structs.{DeviceInfo}
use aaruremote.Freebsd.Listing.{Node, Chain, write, read_chain}

pub none-some : {A : Type 0} (a : A) → none ≢ some a
none-some a e = cc

-- The nodes from `p` to `q`, none of them `c`.
unfoldable pub Seg : (ℕ → Option Node) → ℕ → ℕ → Option ℕ → List DeviceInfo → Option ℕ → Type 0
Seg h n c p [] q = p ≡ q
Seg h n c p (d ∷ ds) q =
    (a : ℕ) × (r : Option ℕ) × (p ≡ some a)
    × (a < n)
    × ((a == c) ≡ false)
    × (h a ≡ some (record { info = d; next = r }))
    × Seg h n c r ds q

-- The nodes are in another store too, where they are not `c'`.
pub Seg-other_store :
    (h h' : ℕ → Option Node) (n c c' : ℕ) (p : Option ℕ) (ds : List DeviceInfo) (q : Option ℕ)
    → ((a : ℕ) → a < n → (a == c) ≡ false → (h' a ≡ h a) × ((a == c') ≡ false))
    → Seg h n c p ds q
    → Seg h' (suc n) c' p ds q
unfolding Seg
Seg-other_store h h' n c c' p [] q same seg = seg
Seg-other_store h h' n c c' p (d ∷ ds) q same (a, r, here, low, other, node, seg) =
    let (kept, apart) = same a low other in
    (a, r, here, omega arith, apart, kept ∙ node, Seg-other_store h h' n c c' r ds q same seg)

pub Seg-snoc :
    (h : ℕ → Option Node) (n c : ℕ) (p : Option ℕ) (ds : List DeviceInfo) (a : ℕ) (d : DeviceInfo)
    (r : Option ℕ)
    → Seg h n c p ds (some a)
    → a < n
    → (a == c) ≡ false
    → h a ≡ some (record { info = d; next = r })
    → Seg h n c p (ds ++ d ∷ []) r
unfolding Seg
Seg-snoc h n c p [] a d r seg low other node = (a, r, seg, low, other, node, refl)
Seg-snoc h n c p (e ∷ ds) a d r (b, q, here, low_b, other_b, node_b, seg) low other node =
    (b, q, here, low_b, other_b, node_b, Seg-snoc h n c q ds a d r seg low other node)

-- What is read in front of the rest.
unfoldable pub behind : List DeviceInfo → Option (List DeviceInfo) → Option (List DeviceInfo)
behind ds none = none
behind ds (some rest) = some (ds ++ rest)

behind-cons :
    (d : DeviceInfo) (ds : List DeviceInfo) (o : Option (List DeviceInfo))
    → elim (behind ds o) [ none ↦ none | some es ↦ some (d ∷ es) ] ≡ behind (d ∷ ds) o
unfolding behind
behind-cons d ds none = refl
behind-cons d ds (some es) = refl

behind-nil : (o : Option (List DeviceInfo)) → o ≡ behind [] o
unfolding behind
behind-nil none = refl
behind-nil (some es) = refl

read_chain-Seg :
    (h : ℕ → Option Node) (n c : ℕ) (p : Option ℕ) (ds : List DeviceInfo) (q : Option ℕ)
    (fuel k : ℕ)
    → fuel ≡ length ds + k
    → Seg h n c p ds q
    → read_chain h fuel p ≡ behind ds (read_chain h k q)
unfolding Seg read_chain
read_chain-Seg h n c p [] q fuel k size seg =
    let same : fuel ≡ k = omega arith in rw (same, seg) (behind-nil (read_chain h k q))
read_chain-Seg h n c p (d ∷ ds) q zero k size seg = absurd (omega arith)
read_chain-Seg h n c p (d ∷ ds) q (suc fuel) k size (a, r, here, low, other, node, seg) =
    rw (here, read_chain, node, read_chain-Seg h n c r ds q fuel k (omega arith) seg)
      (behind-cons d ds (read_chain h k q))

-- What is behind a node with a last pointer: the next nodes, or one that was freed.
unfoldable pub Tail : (ℕ → Option Node) → Bool → Option ℕ → Type 0
Tail h true t = t ≡ none
Tail h false t = (x : ℕ) × (t ≡ some x) × (h x ≡ none)

-- A list whose last node is `list_current`.
unfoldable pub Good : Chain → List DeviceInfo → Bool → Type 0
Good s ds ends =
    (c : ℕ) × (front : List DeviceInfo) × (d : DeviceInfo) × (t : Option ℕ) × (ds ≡ front ++ d ∷ [])
    × (s.list_current ≡ some c)
    × (c < s.fresh)
    × (length front < s.fresh)
    × (s.store c ≡ some (record { info = d; next = t }))
    × Seg s.store s.fresh c s.list_start front (some c)
    × Tail s.store ends t

-- What is read of the last node on.
last_node-read :
    (h : ℕ → Option Node) (k c : ℕ) (d : DeviceInfo) (t : Option ℕ) (ends : Bool)
    → h c ≡ some (record { info = d; next = t })
    → Tail h ends t
    → read_chain h (suc k) (some c) ≡ (if ends then some (d ∷ []) else none)
unfolding Tail read_chain
last_node-read h k c d t true node tail = rw (read_chain, node, tail) refl
last_node-read h zero c d t false node (x, tail, freed) = rw (read_chain, node, tail) refl
last_node-read h (suc k) c d t false node (x, tail, freed) =
    rw (read_chain, node, tail, read_chain, freed) refl

behind-if :
    (ds es : List DeviceInfo) (b : Bool)
    → behind ds (if b then some es else none) ≡ (if b then some (ds ++ es) else none)
unfolding behind
behind-if ds es true = refl
behind-if ds es false = refl

-- What is read of the list then.
pub Good-read :
    (s : Chain) (ds : List DeviceInfo) (ends : Bool)
    → Good s ds ends
    → read_chain s.store s.fresh s.list_start ≡ (if ends then some ds else none)
unfolding Good
Good-read s ds ends (c, front, d, t, e, current, low, short, node, seg, tail) =
    let k = s.fresh - suc (length front) in
    read_chain-Seg s.store s.fresh c s.list_start front (some c) s.fresh (suc k) (omega arith) seg
    ∙ ap (behind front) (last_node-read s.store k c d t ends node tail)
    ∙ behind-if front (d ∷ []) ends
    ∙ ap (λ q. if ends then some q else none) (sym e)

-- The list begins with a node that was freed.
unfoldable pub Lost : Chain → Type 0
Lost s = (a : ℕ) × (s.list_start ≡ some a) × (s.store a ≡ none) × (a < s.fresh)

pub Lost-read : (s : Chain) (fuel : ℕ) → Lost s → read_chain s.store fuel s.list_start ≡ none
unfolding Lost read_chain
Lost-read s zero (a, start, freed, low) = rw start refl
Lost-read s (suc fuel) (a, start, freed, low) = rw (start, read_chain, freed) refl

pub write_at : (h : ℕ → Option Node) (c : ℕ) (x : Option Node) → write h c x c ≡ x
unfolding write
write_at h c x = rw (eq→== c c refl) refl

pub write_apart :
    (h : ℕ → Option Node) (c : ℕ) (x : Option Node) (a : ℕ) → (a == c) ≡ false → write h c x a ≡ h a
unfolding write
write_apart h c x a apart = rw apart refl
