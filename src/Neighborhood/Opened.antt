-- ===== src/Neighborhood/Opened.antt =====
-- The splats that a node keeps are open, so no call on one fails its assertion.
use daylite.Prelude.{
  ℕ, ◌≡◌, refl, Bool, true, Option, none, some, List, [], ◌∷◌, String, String-discrete, arith,
  Option-cases, ◌⊎◌, Bool-cases, inl, inr,
}
use daylite.Prelude.Assoc.{
  lookup, put, remove, remove-put, AllValues, put-AllValues, remove-AllValues, lookup-AllValues,
}
use daylite.Outcome.{VoidResult, ok, fail, done, failed, message, code}
use daylite.Node.{SplatInfo}
use daylite.Splat.{
  Splat, Files, FileName, Answers, Memory, Mode, off, subscribes, mapped, null, splat, file_name,
  connect, map, unmap, close, destroy,
}
use daylite.Neighborhood.{
  Splats, Shared, insert, close_old, open_new, register_splat, unregister_splat,
}

-- The descriptor, the mapping and the mode of a splat agree.
pub record IsOpen {Doc : Type 0} (mode : Mode) (s : Splat Doc) : Type 0 where
  pub mode_is : s.mode ≡ mode
  pub descriptor : ℕ
  pub fd_is : s.fd ≡ some descriptor
  pub name : FileName
  pub backing_is : s.backing ≡ mapped name

-- The splats that other nodes announce and take back.
pub data Notice : Type 0 where
  announced : Answers → SplatInfo → Notice
  withdrawn : Answers → SplatInfo → Notice

module _ {Doc : Type 0} where
  abbrev pub AreOpen : Mode → List (String × Splat Doc) → Type 0
  AreOpen mode = AllValues String-discrete (IsOpen mode)

  -- A splat that is open can be closed, and may then be deleted.
  close_lem :
      (answers : Answers) (s : Splat Doc)
      → IsOpen subscribes s
      → (ret : VoidResult) × (s' : Splat Doc) × (close answers s ≡ some (ret, s'))
        × (destroy answers s' ≡ some s')
  unfolding close unmap destroy
  close_lem answers s v = elim (Bool-cases answers.mapping_undone) [
    | inl h ↦ (
      done,
      record s { fd = none; backing = null; size = 0; mode = off },
      ground arith,
      ground arith,
    )
    | inr h ↦
        (failed "Memory un-mapping failed!", record s { mode = off }, ground arith, ground arith)
  ]

module _ {Doc : Type 0} (m : Memory Doc) where
  close_old_lem :
      (answers : Answers) (s : Splat Doc)
      → IsOpen subscribes s
      → (s' : Splat Doc) × (close_old m answers s ≡ some s')
  unfolding close_old
  close_old_lem answers s v = let (ret, s', e, f) = close_lem answers s v in (s', ground arith)

  module _ (answers : Answers) (size id : ℕ) (topic : String) (files : Files) where
    abbrev connected : VoidResult × Splat Doc × Files
    connected = connect m answers size (splat id topic) files

    abbrev IsConnected : Type 0
    IsConnected =
        (a : Bool) × (e : String) × (c : ℕ) × (connected.0 ≡ ok a e c)
        × IsOpen subscribes connected.1

    connect-cases : ((e : String) × (c : ℕ) × (connected.0 ≡ fail e c)) ⊎ IsConnected
    unfolding connect map splat
    connect-cases = elim (Option-cases answers.opened) [
      | inl h ↦ inl (message connected.0, code connected.0, ground arith)
      | inr (fd, h) ↦ elim (Bool-cases answers.mapping_made) [
        | inl k ↦ inr (
          true,
          "",
          0,
          ground arith,
          record {
            mode_is = ground arith;
            descriptor = fd;
            fd_is = ground arith;
            name = file_name (splat {Doc = Doc} id topic);
            backing_is = ground arith;
          },
        )
        | inr k ↦ inl (message connected.0, code connected.0, ground arith)
      ]
    ]

  insert-AreOpen :
      (topic : String) (s : Splat Doc) (table : List (String × Splat Doc))
      → IsOpen subscribes s
      → AreOpen subscribes table
      → AreOpen subscribes (insert m topic s table)
  unfolding insert
  insert-AreOpen topic s table o v = elim (Option-cases (lookup String-discrete topic table)) [
    | inl free ↦
        rw (free, insert) (put-AllValues String-discrete (IsOpen subscribes) topic s table o v)
    | inr (other, taken) ↦ rw (taken, insert) v
  ]

  -- Once its entry is erased, it does not matter what became of a splat.
  erased-AreOpen :
      (topic : String) (s : Splat Doc) (table : List (String × Splat Doc))
      → AreOpen subscribes table
      → AreOpen subscribes (remove String-discrete topic (put String-discrete topic s table))
  erased-AreOpen topic s table v =
      rw (remove-put String-discrete topic s table)
        (remove-AllValues String-discrete (IsOpen subscribes) topic table v)

  open_new-AreOpen :
      (answers : Answers) (info : SplatInfo) (others : List (String × Splat Doc)) (st : Splats Doc)
      (files : Files)
      → AreOpen subscribes others
      → AreOpen subscribes (open_new m answers info others st files).1.0.remote
  unfolding open_new
  open_new-AreOpen answers info others st files v =
      elim (connect-cases answers info.size info.node_id info.topic files) [
        | inl (e, c, h) ↦ rw (h, open_new) v
        | inr (a, e, c, h, o) ↦ rw (h, open_new) (insert-AreOpen info.topic _ others o v)
      ]

  abbrev after_register : Option (VoidResult × Shared Doc) → Option (Shared Doc)
  after_register none = none
  after_register (some (ret, shared)) = some shared

  abbrev after_unregister : Files → Option (VoidResult × Splats Doc) → Option (Shared Doc)
  after_unregister files none = none
  after_unregister files (some (ret, st)) = some (st, files)

  unfoldable pub hear : Notice → Shared Doc → Option (Shared Doc)
  unfolding register_splat unregister_splat
  hear (announced answers info) shared = after_register (register_splat m answers info shared)
  hear (withdrawn answers info) (st, files) =
      after_unregister files (unregister_splat m answers info st)

  unfoldable pub hear_all : List Notice → Shared Doc → Option (Shared Doc)
  unfolding hear
  hear_all [] shared = some shared
  hear_all (n ∷ ns) shared = elim (hear n shared) [
    | none ↦ none
    | some shared' ↦ hear_all ns shared'
  ]

  register_splat-AreOpen :
      (answers : Answers) (info : SplatInfo) (st : Splats Doc) (files : Files)
      → AreOpen subscribes st.remote
      → (ret : VoidResult) × (after : Shared Doc) × (register_splat m answers info (st, files)
          ≡ some (ret, after))
        × AreOpen subscribes after.0.remote
  unfolding register_splat
  register_splat-AreOpen answers info st files v =
      elim (Option-cases (lookup String-discrete info.topic st.remote)) [
        | inl h ↦
            let new = open_new m answers info st.remote st files in
            (new.0, new.1, ground arith, open_new-AreOpen answers info st.remote st files v)
        | inr (old, h) ↦
            let (s', e) = close_old_lem answers old (open_at old h) in
            let others =
              remove String-discrete info.topic (put String-discrete info.topic s' st.remote) in
            let new = open_new m answers info others st files in
            (
              new.0,
              new.1,
              ground arith,
              open_new-AreOpen answers info others st files
                  (erased-AreOpen info.topic s' st.remote v),
            )
      ]
    where
      open_at :
          (old : Splat Doc)
          → lookup String-discrete info.topic st.remote ≡ some old
          → IsOpen subscribes old
      open_at old h =
          lookup-AllValues String-discrete (IsOpen subscribes) info.topic old st.remote h v

  unregister_splat-AreOpen :
      (answers : Answers) (info : SplatInfo) (st : Splats Doc)
      → AreOpen subscribes st.remote
      → (ret : VoidResult) × (after : Splats Doc) × (unregister_splat m answers info st
          ≡ some (ret, after))
        × AreOpen subscribes after.remote
  unfolding unregister_splat
  unregister_splat-AreOpen answers info st v =
      elim (Option-cases (lookup String-discrete info.topic st.remote)) [
        | inl h ↦ (failed "Splat not found", st, ground arith, v)
        | inr (s, h) ↦
            let (ret, s', e, f) =
              close_lem answers s
                (lookup-AllValues String-discrete (IsOpen subscribes) info.topic s st.remote h v) in
            (
              done,
              record st {
                remote =
                    remove String-discrete info.topic (put String-discrete info.topic s' st.remote);
              },
              ground arith,
              erased-AreOpen info.topic s' st.remote v,
            )
      ]

  -- A node whose remote splats are open goes through any sequence of announcements and withdrawals of
  -- splats, whatever the system answers to its calls: no assertion fails, and the splats that it then
  -- reads are open.
  pub hear_all-AreOpen :
      (ns : List Notice) (st : Splats Doc) (files : Files)
      → AreOpen subscribes st.remote
      → (after : Shared Doc) × (hear_all ns (st, files) ≡ some after)
        × AreOpen subscribes after.0.remote
  unfolding hear_all hear
  hear_all-AreOpen [] st files v = ((st, files), refl, v)
  hear_all-AreOpen (announced answers info ∷ ns) st files v =
      let (ret, (st', files'), e, v') = register_splat-AreOpen answers info st files v in
      rw (e, hear_all) (hear_all-AreOpen ns st' files' v')
  hear_all-AreOpen (withdrawn answers info ∷ ns) st files v =
      let (ret, st', e, v') = unregister_splat-AreOpen answers info st v in
      rw (e, hear_all) (hear_all-AreOpen ns st' files v')
