-- ===== src/Snapshot/Background.antt =====
-- src/persist/SnapshotManager.cc: the save in a child process. What `fork` and `waitpid` return is
-- chosen by the outside world, as is what the callback of a finished save does.
use vemory.Prelude.{
  ℕ, ◌≡◌, refl, Bool, true, false, not, ◌&&◌, Option, none, some, List, [], ◌∷◌, ◌++◌, Bytes,
  length, sym, Bool-cases, Option-cases, inl, inr, bytes_eq, ◌=?◌, codes, arith, if◌then◌else◌,
}
use vemory.Request.{is_empty}
use vemory.Map.{erase}
use vemory.Snapshot.{
  Status, ok, bad_value, not_configured, in_progress, error, Files, rdb_name, path_in,
}

-- The child, its target and whether `reap_timer_` is set.
pub record Manager : Type 0 where
  pub dir : Bytes
  pub child : Option ℕ
  pub pending : Bytes
  pub timer : Bool

-- `BackgroundSaveToPath` in the parent; `fork` is the child's pid, or none. The child calls
-- `SaveToPath`.
unfoldable pub background_save_to_path : Option ℕ → Manager → Bytes → Manager × Status
background_save_to_path fork m path = if is_empty path then (m, bad_value) else elim m.child [
  | some pid ↦ (m, in_progress)
  | none ↦ elim fork [
    | none ↦ (record m { pending = [] }, error)
    | some pid ↦ (record m { child = some pid; pending = path; timer = true }, ok)
  ]
]

-- `BackgroundSave`
unfoldable pub background_save : Option ℕ → Manager → Manager × Status
background_save fork m =
    if is_empty m.dir
    then (m, not_configured)
    else background_save_to_path fork m (path_in m.dir rdb_name)

-- What `waitpid` says of the child: it runs, it has ended, with success or not, it is not there
-- (ECHILD), or the call has failed.
pub data Wait : Type 0 where
  running : Wait
  ended : Bool → Wait
  no_child failed : Wait

-- `RemoveLegacyDumpFiles`
abbrev pub legacy : List Bytes
legacy =
    codes "dump.meta"
    ∷ codes "dump.kv"
    ∷ codes "dump.nodes"
    ∷ codes "dump.usearch"
    ∷ codes "dump.meta.tmp"
    ∷ codes "dump.kv.tmp"
    ∷ codes "dump.nodes.tmp"
    ∷ codes "dump.usearch.tmp"
    ∷ []

unfoldable pub remove_all : Bytes → List Bytes → Files → Files
remove_all dir [] fs = fs
remove_all dir (name ∷ names) fs = remove_all dir names (erase (path_in dir name) fs)

unfoldable pub remove_legacy_dump_files : Bytes → Files → Files
remove_legacy_dump_files dir fs = if is_empty dir then fs else remove_all dir legacy fs

-- `ReapSaveChild` up to the callback: what the callback is given, if it is called.
unfoldable pub reap : Wait → Manager → Files → Manager × Files × Option (Bool × Bytes)
reap w m fs = elim m.child [
  | none ↦ (m, fs, none)
  | some pid ↦ elim w [
    | running ↦ (m, fs, none)
    | failed ↦ (m, fs, none)
    | no_child ↦ (record m { child = none }, fs, none)
    | ended good ↦
        let fs' =
          if good && not (is_empty m.dir) && (m.pending =? path_in m.dir rdb_name)
          then remove_legacy_dump_files m.dir fs
          else fs in
        (record m { child = none; pending = [] }, fs', some (good, m.pending))
  ]
]

module _ {X : Type 0} (callback : Bool → Bytes → Manager × X → Manager × X) where
  -- `ReapSaveChild`. The callback may start another save; `X` is what it keeps of its own.
  unfoldable pub reap_save_child : Wait → Manager × X → Files → (Manager × X) × Files
  reap_save_child w (m, x) fs =
      let (m', fs', report) = reap w m fs in
      elim report [ none ↦ ((m', x), fs') | some (good, path) ↦ (callback good path (m', x), fs') ]

  -- The callback of the timer of `EnsureReapTimer`, which sets it again while a child runs.
  unfoldable pub timer_fires : Wait → Manager × X → Files → (Manager × X) × Files
  timer_fires w (m, x) fs =
      let ((m', x'), fs') = reap_save_child w (record m { timer = false }, x) fs in
      ((elim m'.child [ none ↦ m' | some pid ↦ record m' { timer = true } ], x'), fs')

-- Saves that are asked for one after another, each with what its `fork` returns.
abbrev pub Asks : Type 0
Asks = List (Option ℕ × Bytes)

abbrev started_path : Status → Bytes → List Bytes → List Bytes
started_path ok path ps = path ∷ ps
started_path st path ps = ps

-- What has been observed, the latest first: the paths of the saves that `BackgroundSaveToPath` has
-- started, and the calls of the callback.
pub record Heard : Type 0 where
  pub started : List Bytes
  pub calls : List (Bool × Bytes)

unfoldable pub ask_all : Asks → Manager × Heard → Manager × Heard
ask_all [] s = s
ask_all ((fork, path) ∷ asks) (m, h) =
    let (m', st) = background_save_to_path fork m path in
    ask_all asks (m', record h { started = started_path st path h.started })

-- A callback that notes its call and asks for saves.
abbrev noting : Asks → Bool → Bytes → Manager × Heard → Manager × Heard
noting asks good path (m, h) = ask_all asks (m, record h { calls = (good, path) ∷ h.calls })

-- A manager with what has been observed, and how `waitpid` has said that the children ended, the
-- latest first; `none` for a child that it did not find.
pub record Watched : Type 0 where
  pub manager : Manager
  pub heard : Heard
  pub ends : List (Option Bool)

abbrev pub idle : Bytes → Watched
idle dir = record {
  manager = record { dir = dir; child = none; pending = []; timer = false };
  heard = record { started = []; calls = [] };
  ends = [];
}

abbrev pub ask : Asks → Watched → Watched
ask asks c = let (m, h) = ask_all asks (c.manager, c.heard) in record c { manager = m; heard = h }

-- The end of the child that a wait tells.
abbrev end_of : Option ℕ → Wait → List (Option Bool) → List (Option Bool)
end_of (some pid) (ended good) ends = some good ∷ ends
end_of (some pid) no_child ends = none ∷ ends
end_of child w ends = ends

-- The timer, where the callback asks for saves.
unfoldable pub fire : Wait → Asks → Files → Watched → Watched
fire w asks fs c =
    let ((m, h), fs') = timer_fires (noting asks) w (c.manager, c.heard) fs in
    record { manager = m; heard = h; ends = end_of c.manager.child w c.ends }

pub data Reach (dir : Bytes) : Watched → Type 0 where
  begins : Reach dir (idle dir)
  asks : {c : Watched} (l : Asks) → Reach dir c → Reach dir (ask l c)
  fires :
      {c : Watched} (w : Wait) (l : Asks) (fs : Files)
      → c.manager.timer ≡ true
      → Reach dir c
      → Reach dir (fire w l fs c)

-- The calls that saves to these paths are due, where their children have ended so.
abbrev pub due : List Bytes → List (Option Bool) → List (Bool × Bytes)
due (path ∷ paths) (some good ∷ ends) = (good, path) ∷ due paths ends
due (path ∷ paths) (none ∷ ends) = due paths ends
due paths ends = []

-- Each save that has started has an end, and the callback has been called for just those that ended
-- and were found; or it is the last one, and runs, with the timer set.
abbrev pub Balanced : Option ℕ → Bytes → Bool → Heard → List (Option Bool) → Type 0
Balanced none pending timer h ends =
    (length h.started ≡ length ends) × (h.calls ≡ due h.started ends)
Balanced (some pid) pending timer h ends =
    (timer ≡ true)
    × ((done : List Bytes) × (h.started ≡ pending ∷ done)
        × (length done ≡ length ends)
        × (h.calls ≡ due done ends))

abbrev pub IsAccounted : Watched → Type 0
IsAccounted c = Balanced c.manager.child c.manager.pending c.manager.timer c.heard c.ends

abbrev Holds : List (Option Bool) → Manager × Heard → Type 0
Holds ends (m, h) = Balanced m.child m.pending m.timer h ends

ask_one-Holds :
    (ends : List (Option Bool)) (fork : Option ℕ) (path : Bytes) (m : Manager) (h : Heard)
    → Holds ends (m, h)
    → let (m', st) = background_save_to_path fork m path in
      Holds ends (m', record h { started = started_path st path h.started })
unfolding background_save_to_path
ask_one-Holds ends fork path m h b = elim (Bool-cases (is_empty path)) [
  | inl nameless ↦ rw nameless b
  | inr named ↦ elim (Option-cases m.child) [
    | inr (pid, e) ↦ rw (named, e) b
    | inl idle_ ↦ elim (Option-cases fork) [
      | inl failed_ ↦ rw (named, idle_, failed_, idle_) (rw idle_ at b)
      | inr (pid, forked) ↦
          let before : Balanced none m.pending m.timer h ends = rw idle_ at b in
          rw (named, idle_, forked) (refl, (h.started, refl, before.0, before.1))
    ]
  ]
]

ask_all-Holds :
    (ends : List (Option Bool)) (l : Asks) (m : Manager) (h : Heard)
    → Holds ends (m, h)
    → Holds ends (ask_all l (m, h))
unfolding ask_all
ask_all-Holds ends [] m h b = b
ask_all-Holds ends ((fork, path) ∷ l) m h b =
    let (m', st) = background_save_to_path fork m path in
    ask_all-Holds ends l m' (record h { started = started_path st path h.started })
      (ask_one-Holds ends fork path m h b)

-- Whether the timer is set matters only for a child that runs.
retimed-Holds :
    (ends : List (Option Bool)) (m : Manager) (h : Heard)
    → Holds ends (m, h)
    → Holds ends (elim m.child [ none ↦ m | some pid ↦ record m { timer = true } ], h)
retimed-Holds ends m h b = elim (Option-cases m.child) [
  | inl e ↦ rw e b
  | inr (pid, e) ↦
      let b' : Balanced (some pid) m.pending m.timer h ends = rw e at b in rw (e, e) (refl, b'.1)
]

-- What has been settled once the child has ended.
settled :
    (verdict : Option Bool) (pending : Bytes) (timer : Bool) (h : Heard) (ends : List (Option Bool))
    (pid : ℕ)
    → Balanced (some pid) pending timer h ends
    → (length h.started ≡ length (verdict ∷ ends))
      × (due h.started (verdict ∷ ends) ≡ due (pending ∷ []) (verdict ∷ []) ++ h.calls)
settled (some good) pending timer h ends pid (set, (done, e, same, calls)) =
    (rw e (omega (arith, same)), rw (e, calls) refl)
settled none pending timer h ends pid (set, (done, e, same, calls)) =
    (rw e (omega (arith, same)), rw (e, calls) refl)

fire-IsAccounted :
    (w : Wait) (l : Asks) (fs : Files) (c : Watched) → IsAccounted c → IsAccounted (fire w l fs c)
unfolding fire timer_fires reap_save_child reap
fire-IsAccounted w l fs c b = by_child c.manager.child refl w
  where
    at_wait :
        (w : Wait) (pid : ℕ)
        → c.manager.child ≡ some pid
        → Balanced (some pid) c.manager.pending c.manager.timer c.heard c.ends
        → IsAccounted (fire w l fs c)
    at_wait running pid e b' = rw e (refl, b'.1)
    at_wait failed pid e b' = rw e (refl, b'.1)
    at_wait no_child pid e b' =
        let (size, calls) = settled none c.manager.pending c.manager.timer c.heard c.ends pid b' in
        rw e (size, sym calls)
    at_wait (ended good) pid e b' =
        let (size, calls) =
          settled (some good) c.manager.pending c.manager.timer c.heard c.ends pid b' in
        let h : Heard = record c.heard { calls = (good, c.manager.pending) ∷ c.heard.calls } in
        let m : Manager = record c.manager { timer = false; child = none; pending = [] } in
        let (m', h') = ask_all l (m, h) in
        rw e (
          retimed-Holds (some good ∷ c.ends) m' h'
            (ask_all-Holds (some good ∷ c.ends) l m h (size, sym calls)))

    by_child :
        (child : Option ℕ) → c.manager.child ≡ child → (w : Wait) → IsAccounted (fire w l fs c)
    by_child none e w = rw e (rw e at b)
    by_child (some pid) e w =
        let b' : Balanced (some pid) c.manager.pending c.manager.timer c.heard c.ends = rw e at b in
        at_wait w pid e b'

-- The calls of the callback are just those due: for each background save that has started, with the
-- success that `waitpid` tells of its child and with the save's path, in the order of the saves, but
-- none for a child that `waitpid` does not find. A save that has not ended is the last one, and for
-- it the timer is set, so that it is waited for. This holds after any commands, timers and saves
-- that the callback asks for.
pub Reach-IsAccounted : (dir : Bytes) (c : Watched) → Reach dir c → IsAccounted c
Reach-IsAccounted dir c begins = (refl, refl)
Reach-IsAccounted dir c (asks {c = c₀} l r) =
    ask_all-Holds c₀.ends l c₀.manager c₀.heard (Reach-IsAccounted dir c₀ r)
Reach-IsAccounted dir c (fires {c = c₀} w l fs set r) =
    fire-IsAccounted w l fs c₀ (Reach-IsAccounted dir c₀ r)
