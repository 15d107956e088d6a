-- ===== src/Mutation/Logged.antt =====
-- What the log records of a mutation: the writes that take the stores from one state to the next.
use vemory.Prelude.{
  ℕ, ◌≡◌, Bool, Option, bytes_eq, ◌≢◌, ap, ◌∙◌, Bytes, [], ◌++◌, if◌then◌else◌, true, false, ◌||◌,
  some, none, arith, Option-cases, Bool-cases, inl, inr, ◌⊎◌, append-nil, append_assoc,
}
use vemory.Request.{RequestContext, is_empty}
use vemory.KvStore
use vemory.KvStore.{KvStore}
use vemory.Encode.{encode_write_command}
use vemory.Encode.WriteCommand.{key_at}
use vemory.Command.{CommandType, set, del, vdel}
use vemory.Storage
use vemory.Storage.{VNode}
use vemory.Embed.{Usearch}
use vemory.Index
use vemory.Index.{VNodeIndex, needs_room_for, peek_lru_user_key}
use vemory.Wal.{AofWriter, append_frame, enqueue_frame}
use vemory.KvStore.Laws.{get-set}
use vemory.Map.{contains, lookup}
use vemory.Mutation.Capacity.{publish_stores}
use vemory.Mutation.{
  client, aof_replay, ReplFeed, Stores, publish, write_frame, append, apply_set, apply_del,
  apply_vdel, apply_mutation, done, wal_on, repl_on,
}

-- A writer whose queue, once flushed, is a file: a frame that it takes comes last.
pub record KeepsFrames {W : Type 0} (a : AofWriter W) (bytes : W → Bytes) : Type 0 where
  pub takes :
      (w : W) (frame : Bytes)
      → (a.enqueue w frame).1 ≡ true
      → bytes (a.enqueue w frame).0 ≡ bytes w ++ frame

-- The stores alone: no log and no master.
abbrev pub memory : {I W R : Type 0} → VNodeIndex I → KvStore → Stores I W R
memory i m = record { index = i; kv = m; wal = none; repl = none }

kv_del_cases :
    (m : KvStore) (key : Bytes)
    → is_empty key ≡ false
    → (((KvStore.del m key).0 ≡ m)
        × ((KvStore.del m key).1 ≡ KvStore.not_found)
        × (contains key m ≡ false))
      ⊎ (((KvStore.del m key).1 ≡ KvStore.ok) × (contains key m ≡ true))
unfolding KvStore.del
kv_del_cases m key named = elim (Bool-cases (contains key m)) [
  | inl found ↦ inr (rw (named, found), found)
  | inr missing ↦ inl (rw (named, missing), rw (named, missing), missing)
]

abbrev pub or_empty : Option Bytes → Bytes
or_empty none = []
or_empty (some frame) = frame

-- The frame of a command, if it has one.
abbrev pub frame_of : RequestContext → Bytes
frame_of ctx = or_empty (encode_write_command ctx)

abbrev pub is_there : Option VNode → Bool
is_there none = false
is_there (some n) = true

-- The frame of a deletion that finds something.
abbrev pub found_frame : Bool → RequestContext → Bytes
found_frame found ctx = if found then frame_of ctx else []

-- The frame that a command adds itself: a DEL or VDEL that finds nothing adds none.
abbrev pub own_frame : {I : Type 0} → CommandType → VNodeIndex I → KvStore → RequestContext → Bytes
own_frame del i m ctx = found_frame (contains ctx.key m) ctx
own_frame vdel i m ctx = found_frame (is_there (Storage.get_by_user_key i.storage ctx.user_key)) ctx
own_frame _ i m ctx = frame_of ctx

module _ {I W R : Type 0} (u : Usearch I) (a : AofWriter W) (feeds : ReplFeed R) where
  -- The writes whose frames make up the log take the first stores to the last ones, and each
  -- succeeds when it is replayed.
  pub data Logged : VNodeIndex I → KvStore → Bytes → VNodeIndex I → KvStore → Type 0 where
    nothing : (i : VNodeIndex I) (m : KvStore) → Logged i m [] i m
    write :
        {i i' i'' : VNodeIndex I} {m m' m'' : KvStore} {log : Bytes} (ctx : RequestContext)
        (frame : Bytes) (n : ℕ)
        → encode_write_command ctx ≡ some frame
        → key_at ctx.cmd ctx ≢ []
        → apply_mutation u a feeds aof_replay true true (memory {W = W} {R = R} i m) ctx
          ≡ (memory i' m', some (done n))
        → Logged i' m' log i'' m''
        → Logged i m (frame ++ log) i'' m''

  pub Logged-append :
      {i i' i'' : VNodeIndex I} {m m' m'' : KvStore} {log log' : Bytes}
      → Logged i m log i' m'
      → Logged i' m' log' i'' m''
      → Logged i m (log ++ log') i'' m''
  Logged-append (nothing i m) later = later
  Logged-append (write ctx frame n e k runs rest) later =
      rw append_assoc (write ctx frame n e k runs (Logged-append rest later))

  index_del_nameless :
      (i : VNodeIndex I) (key : Bytes)
      → is_empty key ≡ true
      → (Index.del u i key).1 ≡ Index.bad_value
  unfolding Index.del
  index_del_nameless i key nameless = ground (arith, nameless)

  index_del_cases :
      (i : VNodeIndex I) (key : Bytes)
      → is_empty key ≡ false
      → (((Index.del u i key).0 ≡ i)
          × ((Index.del u i key).1 ≡ Index.not_found)
          × (Storage.get_by_user_key i.storage key ≡ none))
        ⊎ (((Index.del u i key).1 ≡ Index.ok)
            × ((n : VNode) × (Storage.get_by_user_key i.storage key ≡ some n)))
  unfolding Index.del Storage.get_by_user_key Storage.del_by_user_key
  index_del_cases i key named = elim (Option-cases (lookup key i.storage.by_user_key)) [
    | inl missing ↦ inl (
      rw (named, missing, Index.del),
      rw (named, missing, Index.del),
      rw (missing, Storage.get_by_user_key),
    )
    | inr (id, e) ↦ elim (Option-cases (Storage.get_by_id i.storage id)) [
      | inl dangling ↦ inl (
        rw (named, e, dangling, Index.del),
        rw (named, e, dangling, Index.del),
        rw (e, dangling, Storage.get_by_user_key),
      )
      | inr (n, found) ↦
          let deleted : (Storage.del_by_user_key i.storage key).1 ≡ Storage.ok =
            rw (e, Storage.del_by_user_key) in
          inr
            (rw (named, e, found, deleted, Index.del), (n, rw (e, found, Storage.get_by_user_key)))
    ]
  ]

  module _ (bytes : W → Bytes) (keeps : KeepsFrames a bytes) where
    -- The log is on, and holds `log`.
    abbrev pub Logging : Stores I W R → Bytes → Type 0
    Logging s log =
        (w : W) × (s.wal ≡ some (record { enabled = true; writer = some w })) × (bytes w ≡ log)

    append-Logging :
        (s : Stores I W R) (log frame : Bytes)
        → Logging s log
        → (append u a feeds s frame).1 ≡ true
        → Logging (append u a feeds s frame).0 (log ++ frame)
    unfolding append append_frame enqueue_frame
    append-Logging s log frame (w, on, holds) taken =
        let queued : (a.enqueue w frame).1 ≡ true = ground (arith, on, taken) in
        (
          (a.enqueue w frame).0,
          ground (arith, on, taken, queued),
          keeps.takes w frame queued ∙ ap (λ l. l ++ frame) holds,
        )

    -- A write that is published as a success has left its frame in the log.
    publish-Logging :
        (s : Stores I W R) (log : Bytes) (ctx : RequestContext) (n : ℕ)
        → Logging s log
        → (publish u a feeds client s ctx n).1.ok ≡ true
        → (frame : Bytes) × (encode_write_command ctx ≡ some frame)
          × Logging (publish u a feeds client s ctx n).0 (log ++ frame)
    unfolding publish write_frame
    publish-Logging s log ctx n on good =
        let (w, at, holds) = on in
        let logs : (wal_on u a feeds s || repl_on u a feeds s) ≡ true = ground (arith, at) in
        elim (Option-cases (encode_write_command ctx)) [
          | inl none_ ↦ absurd (ground (arith, none_, logs, good))
          | inr (frame, e) ↦
              let taken : (append u a feeds s frame).1 ≡ true = ground (arith, e, logs, good) in
              let (w', at', holds') = append-Logging s log frame on taken in
              (frame, e, (w', ground (arith, logs, e, taken, at'), holds'))
        ]

    -- The log is longer by `more`, which takes the stores of before to those of now.
    abbrev pub Adds : Stores I W R → Bytes → Bytes → Stores I W R → Type 0
    Adds s log more s' = Logging s' (log ++ more) × Logged s.index s.kv more s'.index s'.kv

    -- What a client's mutation leaves: the log is longer by what takes the stores of before to those
    -- of now.
    abbrev pub Recorded : Stores I W R → Bytes → Stores I W R → Type 0
    Recorded s log s' = (more : Bytes) × Adds s log more s'

    -- A write that was published once the stores had been changed to `i` and `m`.
    pub published :
        (s : Stores I W R) (i : VNodeIndex I) (m : KvStore) (log : Bytes) (ctx : RequestContext)
        (n : ℕ)
        → let s' : Stores I W R = record s { index = i; kv = m } in
          Logging s log
          → key_at ctx.cmd ctx ≢ []
          → apply_mutation u a feeds aof_replay true true (memory {W = W} {R = R} s.index s.kv) ctx
            ≡ (memory i m, some (done n))
          → (publish u a feeds client s' ctx n).1.ok ≡ true
          → Adds s log (frame_of ctx) (publish u a feeds client s' ctx n).0
    published s i m log ctx n on named replays good =
        let s' : Stores I W R = record s { index = i; kv = m } in
        let (frame, e, on') = publish-Logging s' log ctx n on good in
        let same = publish_stores u a feeds client s' ctx n in
        let encoded : frame_of ctx ≡ frame = ap or_empty e in
        rw encoded (
          on',
          rw (same.0, same.1, ← append-nil frame) (write ctx frame n e named replays (nothing i m)),
        )

    pub apply_set-Recorded :
        (s : Stores I W R) (log : Bytes) (ctx : RequestContext)
        → Logging s log
        → ctx.cmd ≡ set
        → (apply_set u a feeds client true s ctx).1.ok ≡ true
        → Adds s log (frame_of ctx) (apply_set u a feeds client true s ctx).0
    unfolding apply_set apply_mutation publish
    apply_set-Recorded s log ctx on c good = elim (Bool-cases (is_empty ctx.key)) [
      | inl nameless ↦ absurd (ground (arith, nameless, good))
      | inr named ↦
          let m : KvStore = (KvStore.set s.kv ctx.key ctx.element).0 in
          let stored : (KvStore.set s.kv ctx.key ctx.element).1 ≡ KvStore.ok =
            (get-set s.kv ctx.key [] ctx.element (λ e. ground (arith, e, named))).0 in
          let runs : apply_set u a feeds client true s ctx
              ≡ publish u a feeds client (record s { kv = m }) ctx 0 =
            rw (named, stored, apply_set) in
          rw runs (
            published s s.index m log ctx 0 on (λ e. ground (arith, c, e, named))
              (rw (c, named, stored, apply_set, apply_mutation)) (rw runs at good))
    ]

    -- Nothing has changed, and nothing is logged.
    pub unchanged-Recorded : (s : Stores I W R) (log : Bytes) → Logging s log → Adds s log [] s
    unchanged-Recorded s log on = (rw append-nil on, nothing s.index s.kv)

    pub apply_del-Recorded :
        (s : Stores I W R) (log : Bytes) (ctx : RequestContext)
        → Logging s log
        → ctx.cmd ≡ del
        → (apply_del u a feeds client true s ctx).1.ok ≡ true
        → Adds s log
            (found_frame (contains ctx.key s.kv) ctx)
            (apply_del u a feeds client true s ctx).0
    unfolding apply_del apply_mutation publish
    apply_del-Recorded s log ctx on c good = elim (Bool-cases (is_empty ctx.key)) [
      | inl nameless ↦ absurd (ground (arith, nameless, good))
      | inr named ↦ elim (kv_del_cases s.kv ctx.key named) [
        | inl missing ↦
            rw (missing.2, named, missing.1, missing.0, apply_del) (unchanged-Recorded s log on)
        | inr found ↦
            let m : KvStore = (KvStore.del s.kv ctx.key).0 in
            let runs : apply_del u a feeds client true s ctx
                ≡ publish u a feeds client (record s { kv = m }) ctx 1 =
              rw (named, found.0, apply_del) in
            rw (found.1, runs)
              (published s s.index m log ctx 1 on (λ e. ground (arith, c, e, named))
                (rw (c, named, found.0, apply_del, apply_mutation)) (rw runs at good))
      ]
    ]

    pub apply_vdel-Recorded :
        (s : Stores I W R) (log : Bytes) (ctx : RequestContext)
        → Logging s log
        → ctx.cmd ≡ vdel
        → (apply_vdel u a feeds client true s ctx).1.ok ≡ true
        → Adds s log
            (found_frame (is_there (Storage.get_by_user_key s.index.storage ctx.user_key)) ctx)
            (apply_vdel u a feeds client true s ctx).0
    unfolding apply_vdel apply_mutation publish
    apply_vdel-Recorded s log ctx on c good = elim (Bool-cases (is_empty ctx.user_key)) [
      | inl nameless ↦
          absurd (ground (arith, good, index_del_nameless s.index ctx.user_key nameless))
      | inr named ↦ elim (index_del_cases s.index ctx.user_key named) [
        | inl missing ↦
            rw (missing.2, missing.1, missing.0, apply_vdel) (unchanged-Recorded s log on)
        | inr (deleted, (n, found)) ↦
            let i : VNodeIndex I = (Index.del u s.index ctx.user_key).0 in
            let runs : apply_vdel u a feeds client true s ctx
                ≡ publish u a feeds client (record s { index = i }) ctx 1 =
              rw (deleted, apply_vdel) in
            rw (found, runs)
              (published s i s.kv log ctx 1 on (λ e. ground (arith, c, e, named))
                (rw (c, deleted, apply_vdel, apply_mutation)) (rw runs at good))
      ]
    ]
