-- ===== src/Peers/Departure.antt =====
-- What node_impl::server_disconnection leaves of a node's links.
use mathlib.Core.Path.{subst}
use daylite.Prelude.{
  Bool, false, none, ap, ◌&&◌, ◌||◌, ◌++◌, ℕ, ◌==◌, ◌≡◌, ◌≢◌, refl, sym, ◌∙◌, some, String, List,
  [], ◌∷◌, if◌then◌else◌, ite, arith, ℕ_discrete, String-discrete, Bool-cases, inl, inr,
}
use daylite.Prelude.Assoc.{lookup, remove, lookup-remove}
use daylite.Topic.{any}
use daylite.Mail.{Mailman, id32, boxes, leave}
use daylite.Mail.Table.{leave_lem}
use daylite.Node.{Known, bury, bury_all}
use daylite.Node.Tally.{IsTallied, bury_all-IsTallied}
use daylite.Peers.{shutdown, Peer, Links, detach, drop_socket, server_disconnection}
use daylite.Peers.Linked.{Apart, AreLinked, IsLinked, AreLinked-same}

-- The remotes that are not on the socket.
unfoldable pub staying : ℕ → List Peer → List Peer
staying socket [] = []
staying socket (p ∷ ps) = if p.socket == socket then staying socket ps else p ∷ staying socket ps

Apart-staying : (socket k : ℕ) (ps : List Peer) → Apart k ps → Apart k (staying socket ps)
unfolding staying
Apart-staying socket k [] h = tt
Apart-staying socket k (p ∷ ps) h = elim (Bool-cases (p.socket == socket)) [
  | inl on ↦ rw on (Apart-staying socket k ps h.1)
  | inr off ↦ rw off (h.0, Apart-staying socket k ps h.1)
]

-- Whether a remote on the socket has the id, and the ids of the nodes behind such remotes.
unfoldable pub leaves : ℕ → ℕ → List Peer → Bool
leaves socket x [] = false
leaves socket x (p ∷ ps) = p.socket == socket && id32 p.box == x || leaves socket x ps

unfoldable pub ids_behind : ℕ → List Peer → List ℕ
ids_behind socket [] = []
ids_behind socket (p ∷ ps) =
    if p.socket == socket then p.associated_ids ++ ids_behind socket ps else ids_behind socket ps

Apart-leaves : (socket x : ℕ) (ps : List Peer) → Apart x ps → leaves socket x ps ≡ false
unfolding leaves
Apart-leaves socket x [] h = refl
Apart-leaves socket x (p ∷ ps) h = ground (arith, Apart-leaves socket x ps h.1, h.0)

bury_all-append : (xs ys : List ℕ) (k : Known) → bury_all (xs ++ ys) k ≡ bury_all ys (bury_all xs k)
unfolding bury_all
bury_all-append [] ys k = refl
bury_all-append (x ∷ xs) ys k = bury_all-append xs ys (bury x k)

-- What is left after the remotes of the list that are on the socket have gone.
record Spared {Doc : Type 0} (socket : ℕ) (ps : List Peer) (n n' : Links Doc) : Type 0 where
  ids :
      (x : ℕ)
      → lookup ℕ_discrete x (boxes n'.mailman any)
        ≡ (if leaves socket x ps then none else lookup ℕ_discrete x (boxes n.mailman any))
  topics : (u : String) → u ≢ any → boxes n'.mailman u ≡ boxes n.mailman u
  buried : n'.known ≡ bury_all (ids_behind socket ps) n.known

module _ {Doc : Type 0} where
  pub record Detached (p : Peer) (ps : List Peer) (n : Links Doc) (n' : Links Doc) : Type 0 where
    pub found : detach p n ≡ some n'
    pub linked : AreLinked ps n'.mailman
    pub tallied : IsTallied n'.known
    pub left : leave n.mailman any p.box ≡ some (p.box, n'.mailman)
    pub table :
        (u : String)
        → boxes n'.mailman u
          ≡ ite
              (String-discrete any u)
              (remove ℕ_discrete (id32 p.box) (boxes n.mailman any))
              (boxes n.mailman u)
    pub shut : n'.buffers ≡ shutdown p n.buffers
    ids :
        (x : ℕ)
        → lookup ℕ_discrete x (boxes n'.mailman any)
          ≡ (if id32 p.box == x then none else lookup ℕ_discrete x (boxes n.mailman any))
    pub topics : (u : String) → u ≢ any → boxes n'.mailman u ≡ boxes n.mailman u
    buried : n'.known ≡ bury_all p.associated_ids n.known

  pub detach-Detached :
      (p : Peer) (ps : List Peer) (n : Links Doc)
      → AreLinked (p ∷ ps) n.mailman
      → IsTallied n.known
      → (n' : Links Doc) × Detached p ps n n'
  unfolding detach
  detach-Detached p ps n v t = (
    gone,
    record {
      found = rw (l.1, detach) refl;
      linked = AreLinked-same ps n.mailman l.0 kept v.2;
      tallied = bury_all-IsTallied p.associated_ids n.known t;
      left = l.1;
      table = l.2;
      shut = refl;
      ids = λ x.
          ground (arith, l.2 any, lookup-remove ℕ_discrete (id32 p.box) x (boxes n.mailman any));
      topics = λ u ne. ground (arith, l.2 u);
      buried = refl;
    },
  )
    where
      l :
          (m : Mailman) × (leave n.mailman any p.box ≡ some (p.box, m))
          × ((u : String)
              → boxes m u
                ≡ ite
                    (String-discrete any u)
                    (remove ℕ_discrete (id32 p.box) (boxes n.mailman any))
                    (boxes n.mailman u))
      l = leave_lem n.mailman any p.box p.box v.0

      gone : Links Doc
      gone = record n {
        mailman = l.0;
        known = bury_all p.associated_ids n.known;
        buffers = shutdown p n.buffers;
      }

      other :
          (x : ℕ)
          → x ≢ id32 p.box
          → lookup ℕ_discrete x (boxes l.0 any) ≡ lookup ℕ_discrete x (boxes n.mailman any)
      other x ne =
          ground (arith, l.2 any, lookup-remove ℕ_discrete (id32 p.box) x (boxes n.mailman any))

      kept :
          (x : ℕ)
          → (Apart x ps → ⊥)
          → lookup ℕ_discrete x (boxes l.0 any) ≡ lookup ℕ_discrete x (boxes n.mailman any)
      kept x h = other x (λ e. h (subst (λ y. Apart y ps) (sym e) v.1))

  record Dropped (socket : ℕ) (ps : List Peer) (n n' : Links Doc) : Type 0 where
    ends : drop_socket socket ps n ≡ some (staying socket ps, n')
    linked : AreLinked (staying socket ps) n'.mailman
    tallied : IsTallied n'.known
    spared : Spared socket ps n n'

  stays_in :
      {socket : ℕ} (x : ℕ) (ps : List Peer) (n n' : Links Doc)
      → Apart x ps
      → Spared socket ps n n'
      → lookup ℕ_discrete x (boxes n'.mailman any) ≡ lookup ℕ_discrete x (boxes n.mailman any)
  stays_in {socket} x ps n n' out d = ground (arith, d.ids x, Apart-leaves socket x ps out)

  drop_socket-Dropped :
      (socket : ℕ) (ps : List Peer) (n : Links Doc)
      → AreLinked ps n.mailman
      → IsTallied n.known
      → (n' : Links Doc) × Dropped socket ps n n'
  unfolding drop_socket staying leaves ids_behind bury_all
  drop_socket-Dropped socket [] n v t = (
    n,
    record {
      ends = refl;
      linked = tt;
      tallied = t;
      spared = record { ids = λ x. refl; topics = λ u ne. refl; buried = refl };
    },
  )
  drop_socket-Dropped socket (p ∷ ps) n v t = elim (Bool-cases (p.socket == socket)) [
    | inr off ↦
        let (n', d) = drop_socket-Dropped socket ps n v.2 t in
        (
          n',
          record {
            ends = rw (off, drop_socket, staying, d.ends) refl;
            linked =
                rw (off, staying)
                  (
                    stays_in (id32 p.box) ps n n' v.1 d.spared ∙ v.0,
                    Apart-staying socket (id32 p.box) ps v.1,
                    d.linked,
                  );
            tallied = d.tallied;
            spared = record {
              ids = λ x. ground (arith, d.spared.ids x);
              topics = d.spared.topics;
              buried = rw (off, ids_behind) d.spared.buried;
            };
          },
        )
    | inl on ↦
        let (n1, g) = detach-Detached p ps n v t in
        let (n', d) = drop_socket-Dropped socket ps n1 g.linked g.tallied in
        (
          n',
          record {
            ends = rw (on, drop_socket, staying, g.found, d.ends) refl;
            linked = rw (on, staying) d.linked;
            tallied = d.tallied;
            spared = record {
              ids = λ x. ground (arith, d.spared.ids x, g.ids x);
              topics = λ u ne. d.spared.topics u ne ∙ g.topics u ne;
              buried =
                  rw (on, ids_behind)
                    (d.spared.buried
                      ∙ ap (bury_all (ids_behind socket ps)) g.buried
                      ∙ sym (bury_all-append p.associated_ids (ids_behind socket ps) n.known));
            };
          },
        )
  ]

  -- Where the links of a node are in order, the loss of a socket follows no null pointer, and leaves
  -- exactly the remotes on other sockets, in order, in the list and in the mailman; the links are in
  -- order again, the nodes behind the lost remotes are buried, and the mailboxes of every other topic
  -- are as they were.
  pub server_disconnection-IsLinked :
      (socket : ℕ) (n : Links Doc)
      → IsLinked n
      → (n' : Links Doc) × (server_disconnection socket n ≡ some n')
        × (n'.remotes ≡ staying socket n.remotes)
        × IsLinked n'
        × ((x : ℕ)
            → lookup ℕ_discrete x (boxes n'.mailman any) ≡ (
                if leaves socket x n.remotes
                then none
                else lookup ℕ_discrete x (boxes n.mailman any)))
        × (n'.known ≡ bury_all (ids_behind socket n.remotes) n.known)
        × ((u : String) → u ≢ any → boxes n'.mailman u ≡ boxes n.mailman u)
  unfolding server_disconnection
  server_disconnection-IsLinked socket n v =
      let (n', d) = drop_socket-Dropped socket n.remotes n v.remotes_in v.tallied in
      (
        record n' { remotes = staying socket n.remotes },
        rw (d.ends, server_disconnection) refl,
        refl,
        record { remotes_in = d.linked; tallied = d.tallied },
        d.spared.ids,
        d.spared.buried,
        d.spared.topics,
      )
