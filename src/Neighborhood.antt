-- ===== src/Neighborhood.antt =====
-- What SPLAT_ENABLED compiles in of libdaylite/src/node_impl.cpp and remote_node.cpp: the splats that a
-- node publishes, and those of other nodes that it reads.
pub mod Opened
pub mod Delivery
pub mod Loss
pub mod Sending
mod Tests
use daylite.Prelude.{
  ℕ, ◌+◌, ◌*◌, ◌%◌, ◌^◌, ◌==◌, ltb, Bool, true, false, not, ◌&&◌, ◌||◌, Option, none, some, List,
  [], ◌∷◌, ◌++◌, length, String, String-discrete, if◌then◌else◌,
}
use daylite.Prelude.Assoc.{lookup, put, remove}
use daylite.Outcome.{VoidResult, ok, fail, done, failed}
use daylite.Topic.{internal, topic_eq}
use daylite.Packet.{Bson, Meta, Packet}
use daylite.Node.{Counts, SplatInfo, or_zero}
use daylite.Remote.{Mode, allows, missing, stamped}
use daylite.Splat.{
  Splat, Files, Answers, Memory, splat, is_off, create, connect, close, destroy, push, poll,
  update_available,
}

-- `_splats` and `_remote_splats`, by topic.
pub record Splats (Doc : Type 0) : Type 0 where
  pub own : List (String × Splat Doc)
  pub remote : List (String × Splat Doc)

-- A node's splats and the files.
abbrev pub Shared : Type 0 → Type 0
Shared Doc = Splats Doc × Files

module _ {Doc : Type 0} (m : Memory Doc) where
  -- The part of node_impl::info: size, topic and node of each splat.
  abbrev pub splat_infos : ℕ → List (String × Splat Doc) → List SplatInfo
  splat_infos id [] = []
  splat_infos id ((t, s) ∷ splats) =
      record { node_id = id; topic = s.topic; size = s.size } ∷ splat_infos id splats

  -- The splat that is closed and deleted before another is opened for its topic.
  unfoldable pub close_old : Answers → Splat Doc → Option (Splat Doc)
  unfolding close destroy
  close_old answers s =
      if is_off s.mode
      then destroy answers s
      else elim (close answers s) [ none ↦ none | some (ret, s') ↦ destroy answers s' ]

  -- std::unordered_map::insert, which does nothing where the key is taken.
  unfoldable pub insert : String → Splat Doc → List (String × Splat Doc) → List (String × Splat Doc)
  unfolding lookup put String-discrete
  insert topic s table = elim (lookup String-discrete topic table) [
    | none ↦ put String-discrete topic s table
    | some other ↦ table
  ]

  -- The rest of register_splat: the new splat is kept if it could be connected.
  unfoldable pub open_new :
      Answers → SplatInfo → List (String × Splat Doc) → Splats Doc → Files → VoidResult × Shared Doc
  unfolding splat connect insert
  open_new answers info others st files =
      let (ret, s, files') = connect m answers info.size (splat info.node_id info.topic) files in
      elim ret [
        | fail e c ↦ (fail e c, (record st { remote = others }, files'))
        | ok a e c ↦ (ok a e c, (record st { remote = insert info.topic s others }, files'))
      ]

  -- The table holds pointers, so what happens to a splat shows in it, until its entry is erased.
  unfoldable pub register_splat :
      Answers → SplatInfo → Shared Doc → Option (VoidResult × Shared Doc)
  unfolding lookup put remove close_old open_new String-discrete
  register_splat answers info (st, files) = elim (lookup String-discrete info.topic st.remote) [
    | none ↦ some (open_new answers info st.remote st files)
    | some old ↦ elim (close_old answers old) [
      | none ↦ none
      | some s ↦
          let table = put String-discrete info.topic s st.remote in
          some (open_new answers info (remove String-discrete info.topic table) st files)
    ]
  ]

  unfoldable pub unregister_splat :
      Answers → SplatInfo → Splats Doc → Option (VoidResult × Splats Doc)
  unfolding lookup put remove close destroy String-discrete
  unregister_splat answers info st = elim (lookup String-discrete info.topic st.remote) [
    | none ↦ some (failed "Splat not found", st)
    | some s ↦ elim (close answers s) [
      | none ↦ none
      | some (ret, s') ↦ elim (destroy answers s') [
        | none ↦ none
        | some s'' ↦
            let table = put String-discrete info.topic s'' st.remote in
            some (done, record st { remote = remove String-discrete info.topic table })
      ]
    ]
  ]

  -- The end of push_splat: the packet into the splat `s` of its topic. The flag says whether send_info
  -- is called.
  unfoldable pub push_into :
      Bool → Packet Doc → Splat Doc → Shared Doc → Option (VoidResult × Bool × Shared Doc)
  unfolding push put String-discrete
  push_into announced p s (st, files) = elim (push m p s files) [
    | none ↦ none
    | some (s', files') ↦
        some (
          done,
          announced,
          (record st { own = put String-discrete p.meta.topic s' st.own }, files'),
        )
  ]

  -- `p.packed()->len << 1`, of a `uint32_t`.
  abbrev pub first_size : Option Doc → Option ℕ
  first_size none = none
  first_size (some doc) = some (length (m.get_data doc) * 2 % 2 ^ 32)

  -- node_impl::push_splat of node `own`, whose `_subscription_count` is `counts`. A splat that could not
  -- be created is not kept.
  unfoldable pub push_splat :
      Answers → ℕ → Counts → Packet Doc → Shared Doc → Option (VoidResult × Bool × Shared Doc)
  unfolding lookup push_into create splat String-discrete
  push_splat answers own counts p (st, files) =
      if or_zero (lookup String-discrete p.meta.topic counts) == 0
      then some (done, false, (st, files))
      else elim (lookup String-discrete p.meta.topic st.own) [
        | some s ↦ push_into false p s (st, files)
        | none ↦ elim (first_size p.packed) [
          | none ↦ none
          | some size ↦
              let (ret, s, files') = create m answers size (splat own p.meta.topic) files in
              elim ret [
                | fail e c ↦ some (fail e c, false, (st, files'))
                | ok a e c ↦ push_into true p s (st, files')
              ]
        ]
      ]

-- `should_send`, as it is when the code is compiled in.
unfoldable pub splattable : {Doc : Type 0} → ℕ → Packet Doc → Bool
splattable own p = p.meta.droppable && p.meta.origin_id == own

-- What remote_node::send does: a packet for the link, if any, and the splats after it.
pub record Sent (Doc : Type 0) : Type 0 where
  pub packet : Option (Packet Doc)
  pub announced : Bool
  pub splats : Splats Doc
  pub files : Files

module _ (b : Bson) (m : Memory b.Doc) where
  open b use {Doc}

  -- remote_node::send. What push_splat returns is only printed.
  unfoldable pub send : Answers → ℕ → Mode → Counts → Packet Doc → Shared Doc → Option (Sent Doc)
  unfolding lookup topic_eq stamped splattable push_splat String-discrete
  send answers own mode counts p (st, files) =
      if p.local_only
        || not (allows mode && topic_eq p.meta.topic internal)
          && missing (lookup String-discrete p.meta.topic counts)
      then some (record { packet = none; announced = false; splats = st; files = files })
      else if splattable own p
      then elim (push_splat m answers own counts (stamped b own p) (st, files)) [
        | none ↦ none
        | some (ret, announced, (st', files')) ↦
            some (record { packet = none; announced = announced; splats = st'; files = files' })
      ]
      else some (record {
        packet = some (stamped b own p);
        announced = false;
        splats = st;
        files = files;
      })

module _ (b : Bson) (blank : Meta) (stale : Bool) (m : Memory b.Doc) where
  open b use {Doc}

  -- A splat that was polled, and what is placed as outgoing mail.
  abbrev placed : Option (Splat Doc) → Option (List (Packet Doc) × Splat Doc)
  placed none = none
  placed (some s) = elim s.latest [ none ↦ some ([], s) | some p ↦ some (p ∷ [], s) ]

  -- One round of the loop of node_impl::update_splats.
  unfoldable pub update_splat : Counts → Files → Splat Doc → Option (List (Packet Doc) × Splat Doc)
  unfolding lookup update_available poll String-discrete
  update_splat local_counts files s = elim (update_available s files) [
    | none ↦ none
    | some false ↦ some ([], s)
    | some true ↦
        if missing (lookup String-discrete s.topic local_counts)
        then some ([], s)
        else placed (poll b blank stale m s files)
  ]

  abbrev follow :
      String
      → List (Packet Doc) × Splat Doc
      → Option (List (Packet Doc) × List (String × Splat Doc))
      → Option (List (Packet Doc) × List (String × Splat Doc))
  follow t (ps, s) none = none
  follow t (ps, s) (some (qs, splats)) = some (ps ++ qs, (t, s) ∷ splats)

  unfoldable pub update_splats :
      Counts
      → Files
      → List (String × Splat Doc)
      → Option (List (Packet Doc) × List (String × Splat Doc))
  unfolding update_splat
  update_splats local_counts files [] = some ([], [])
  update_splats local_counts files ((t, s) ∷ splats) =
      let rest = update_splats local_counts files splats in
      elim (update_splat local_counts files s) [ none ↦ none | some r ↦ follow t r rest ]
