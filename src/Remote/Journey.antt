-- ===== src/Remote/Journey.antt =====
-- The way of one packet through a network of nodes: each lets it in on one link and sends it out on
-- another.
use daylite.Prelude.{
  ℕ, ◌≤◌, ◌<◌, ◌==◌, ◌≡◌, refl, ap, ◌∙◌, true, false, some, List, [], ◌∷◌, ◌++◌, arith, length,
  if◌then◌else◌,
}
use daylite.Packet.{Bson, Packet, Meta}
use daylite.Node.{Counts, erase_all}
use daylite.Remote.{Mode, on_path, found, stamped, send}
use daylite.Remote.Loops.{on_path-append}
use daylite.Remote.Sending.{send-stamped}

-- `Journey ns q`: the packet on the wire is `q`, and the nodes that have sent it are `ns`, in order.
-- A node that passes a packet on sends what it parsed: the meta as it was, anything else as it may be.
pub data Journey (b : Bson) : List ℕ → Packet b.Doc → Type 0 where
  starts :
      {ms : List ℕ} {q : Packet b.Doc} (n : ℕ) (mode : Mode) (counts : Counts) (p : Packet b.Doc)
      → ms ≡ n ∷ []
      → p.meta.path ≡ []
      → send b n mode counts p ≡ some q
      → Journey b ms q
  hops :
      {ms : List ℕ} {q : Packet b.Doc} (ns : List ℕ) (r : Packet b.Doc)
      → Journey b ns r
      → (n : ℕ) (mode : Mode) (counts : Counts) (p : Packet b.Doc) → ms ≡ ns ++ n ∷ []
      → p.meta ≡ r.meta
      → found n p ≡ false
      → send b n mode counts p ≡ some q
      → Journey b ms q

-- No id stands on the path twice.
abbrev pub IsSimple : List ℕ → Type 0
IsSimple [] = Unit {0}
IsSimple (n ∷ ns) = (on_path n ns ≡ false) × IsSimple ns

IsSimple-append :
    (ns : List ℕ) (n : ℕ) → IsSimple ns → on_path n ns ≡ false → IsSimple (ns ++ n ∷ [])
unfolding on_path
IsSimple-append [] n s h = (refl, tt)
IsSimple-append (x ∷ ns) n s h =
    (ground (arith, on_path-append x n ns, s), IsSimple-append ns n s.1 (ground arith))

stamped-path :
    (b : Bson) (n : ℕ) (p : Packet b.Doc) → (stamped b n p).meta.path ≡ p.meta.path ++ n ∷ []
unfolding stamped
stamped-path b n p = refl

sent-path :
    (b : Bson) (n : ℕ) (mode : Mode) (counts : Counts) (p q : Packet b.Doc)
    → send b n mode counts p ≡ some q
    → q.meta.path ≡ p.meta.path ++ n ∷ []
sent-path b n mode counts p q s =
    ap (λ (t : Packet b.Doc). t.meta.path) (send-stamped b n mode counts p q s) ∙ stamped-path b n p

hop-IsSimple :
    (b : Bson) (n : ℕ) (mode : Mode) (counts : Counts) (p q : Packet b.Doc) (ns ms : List ℕ)
    → ms ≡ ns ++ n ∷ []
    → p.meta.path ≡ ns
    → found n p ≡ false
    → send b n mode counts p ≡ some q
    → IsSimple ns
    → (q.meta.path ≡ ms) × IsSimple ms
unfolding found
hop-IsSimple b n mode counts p q ns ms e path f s v =
    (ground (arith, sent-path b n mode counts p q s), rw e (IsSimple-append ns n v (ground arith)))

-- The path of a packet is the list of the nodes that have sent it, and none has sent it twice.
pub Journey-IsSimple :
    (b : Bson) (ns : List ℕ) (q : Packet b.Doc) → Journey b ns q → (q.meta.path ≡ ns) × IsSimple ns
unfolding on_path
Journey-IsSimple b ms q (starts n mode counts p e o s) =
    (ground (arith, sent-path b n mode counts p q s), rw e (refl, tt))
Journey-IsSimple b ms q (hops ns r j n mode counts p e m f s) =
    let (path, v) = Journey-IsSimple b ns r j in
    hop-IsSimple b n mode counts p q ns ms e (ap (λ (t : Meta). t.path) m ∙ path) f s v

-- Every id of `ns` is one of `net`.
abbrev pub IsWithin : List ℕ → List ℕ → Type 0
IsWithin net [] = Unit {0}
IsWithin net (n ∷ ns) = (on_path n net ≡ true) × IsWithin net ns

length-erase_all_le : (n : ℕ) (net : List ℕ) → length (erase_all n net) ≤ length net
unfolding erase_all
length-erase_all_le n [] = omega arith
length-erase_all_le n (x ∷ net) = ground (arith, length-erase_all_le n net)

length-erase_all :
    (n : ℕ) (net : List ℕ) → on_path n net ≡ true → length (erase_all n net) < length net
unfolding erase_all on_path
length-erase_all n [] h = cc
length-erase_all n (x ∷ net) h = ground (arith, length-erase_all n net, length-erase_all_le n net)

on_path-erase_all :
    (n m : ℕ) (net : List ℕ)
    → on_path m (erase_all n net) ≡ (if n == m then false else on_path m net)
unfolding erase_all on_path
on_path-erase_all n m [] = ground arith
on_path-erase_all n m (x ∷ net) = ground (arith, on_path-erase_all n m net)

IsWithin-erase_all :
    (n : ℕ) (net ns : List ℕ)
    → on_path n ns ≡ false
    → IsWithin net ns
    → IsWithin (erase_all n net) ns
unfolding on_path
IsWithin-erase_all n net [] out h = tt
IsWithin-erase_all n net (m ∷ ns) out h =
    (ground (arith, on_path-erase_all n m net, h.0), IsWithin-erase_all n net ns (ground arith) h.1)

length-IsSimple : (net ns : List ℕ) → IsSimple ns → IsWithin net ns → length ns ≤ length net
length-IsSimple net [] v h = omega arith
length-IsSimple net (n ∷ ns) v h = omega (
  arith,
  length-IsSimple (erase_all n net) ns v.1 (IsWithin-erase_all n net ns v.0 h.1),
  length-erase_all n net h.0,
)

-- Where all senders are nodes of the network, a packet is sent at most as often as it has nodes, so it
-- does not go round for ever.
pub length-Journey :
    (b : Bson) (net ns : List ℕ) (q : Packet b.Doc)
    → Journey b ns q
    → IsWithin net ns
    → length ns ≤ length net
length-Journey b net ns q j h = length-IsSimple net ns (Journey-IsSimple b ns q j).1 h
