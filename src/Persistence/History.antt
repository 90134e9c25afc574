-- ===== src/Persistence/History.antt =====
-- Sequences of writes to the store of packages/core/src/persistence/in-memory-persistence.ts.
use rpenginext.Common.{
  ◌≡◌, refl, ◌≢◌, sym, ◌∙◌, Option, none, some, List, [], ◌∷◌, ◌++◌, append-nil, append_assoc, map,
  String, lookup, insert, lookup-insert, lookup-erase, keys, ◌==◌, eq_iff, arith, Bool-cases, inl,
  inr, All, insert-All, erase-All, lookup-All, IsDistinct, insert-IsDistinct, erase-IsDistinct,
}
use rpenginext.Contracts.{ok, JournalEntry, SessionSnapshot, SessionMeta, TurnPersistenceUnit}
use rpenginext.Persistence.{
  StoredSession, Sessions, journal_of, save, append_to, append_journal, commit_turn, delete, metas,
  list,
}

pub data Write : Type 0 where
  saves : SessionSnapshot → Write
  appends : String → List JournalEntry → Write
  commits : TurnPersistenceUnit → Write
  deletes : String → Write

abbrev pub write : Write → Sessions → Sessions
write (saves snapshot) s = (save snapshot s).1
write (appends id entries) s = (append_journal id entries s).1
write (commits unit) s = (commit_turn unit s).1
write (deletes id) s = (delete id s).1

abbrev pub write_all : List Write → Sessions → Sessions
write_all [] s = s
write_all (w ∷ ws) s = write_all ws (write w s)

-- `w` does not delete the session `id`.
abbrev pub Keeps : String → Write → Type 0
Keeps id (deletes j) = j ≢ id
Keeps id _ = Unit

-- The journal of `id` in `s'` is the one in `s` with entries added behind.
abbrev pub Grows : String → Sessions → Sessions → Type 0
Grows id s s' =
    (added : List JournalEntry) × (journal_of (lookup id s') ≡ journal_of (lookup id s) ++ added)

stays : (id : String) (s s' : Sessions) → lookup id s' ≡ lookup id s → Grows id s s'
stays id s s' e = ([], rw e (sym (append-nil _)))

Grows-trans : (id : String) (s t u : Sessions) → Grows id s t → Grows id t u → Grows id s u
Grows-trans id s t u (a, p) (b, q) =
    (a ++ b, q ∙ (rw p (append_assoc (journal_of (lookup id s)) a b)))

insert-Grows :
    (id j : String) (s : Sessions) (snapshot : SessionSnapshot) (added : List JournalEntry)
    → Grows id s
        (insert j (record { snapshot = snapshot; journal = journal_of (lookup j s) ++ added }) s)
insert-Grows id j s snapshot added = elim (Bool-cases (j == id)) [
  | inl same ↦ (added, rw (lookup-insert, same) (rw ((eq_iff j id).0 same) refl))
  | inr other ↦ ([], rw (lookup-insert, other) (sym (append-nil _)))
]

append_to-Grows :
    (id j : String) (entries : List JournalEntry) (s : Sessions) (o : Option StoredSession)
    → lookup j s ≡ o
    → Grows id s (append_to o j entries s).1
unfolding append_to
append_to-Grows id j entries s none e = stays id s s refl
append_to-Grows id j entries s (some st) e =
    let g = insert-Grows id j s st.snapshot entries in rw e at g

write-Grows : (id : String) (w : Write) (s : Sessions) → Keeps id w → Grows id s (write w s)
unfolding save append_journal commit_turn delete
write-Grows id (saves snapshot) s h =
    let g = insert-Grows id snapshot.session_id s snapshot [] in rw append-nil at g
write-Grows id (appends j entries) s h = append_to-Grows id j entries s (lookup j s) refl
write-Grows id (commits unit) s h =
    insert-Grows id unit.snapshot.session_id s unit.snapshot unit.journal_entries
write-Grows id (deletes j) s h = stays id s _ (ground (arith, lookup-erase j id s, eq_iff j id))

-- However saves, appends, turn commits and deletions of other sessions follow one another, the
-- journal that a session had is the beginning of the journal that it has.
pub write_all-Grows :
    (id : String) (ws : List Write) (s : Sessions) → All (Keeps id) ws → Grows id s (write_all ws s)
write_all-Grows id [] s h = stays id s s refl
write_all-Grows id (w ∷ ws) s h =
    Grows-trans id s (write w s) (write_all ws (write w s)) (write-Grows id w s h.0)
      (write_all-Grows id ws (write w s) h.1)

-- Each entry stands under its own session id, and no id stands twice.
pub record IsIndexed (s : Sessions) : Type 0 where
  pub distinct : IsDistinct s
  pub keyed : All (λ (e : String × StoredSession). e.1.snapshot.session_id ≡ e.0) s

append_to-IsIndexed :
    (j : String) (entries : List JournalEntry) (s : Sessions) (o : Option StoredSession)
    → lookup j s ≡ o
    → IsIndexed s
    → IsIndexed (append_to o j entries s).1
unfolding append_to
append_to-IsIndexed j entries s none e h = h
append_to-IsIndexed j entries s (some st) e h = record {
  distinct = insert-IsDistinct j _ s h.distinct;
  keyed = insert-All _ j _ s (lookup-All _ j s e h.keyed) h.keyed;
}

write-IsIndexed : (w : Write) (s : Sessions) → IsIndexed s → IsIndexed (write w s)
unfolding save append_journal commit_turn delete
write-IsIndexed (saves snapshot) s h = record {
  distinct = insert-IsDistinct snapshot.session_id _ s h.distinct;
  keyed = insert-All _ snapshot.session_id _ s refl h.keyed;
}
write-IsIndexed (appends j entries) s h = append_to-IsIndexed j entries s (lookup j s) refl h
write-IsIndexed (commits unit) s h = record {
  distinct = insert-IsDistinct unit.snapshot.session_id _ s h.distinct;
  keyed = insert-All _ unit.snapshot.session_id _ s refl h.keyed;
}
write-IsIndexed (deletes j) s h = record {
  distinct = erase-IsDistinct j s h.distinct;
  keyed = erase-All _ j s h.keyed;
}

pub write_all-IsIndexed :
    (ws : List Write) (s : Sessions) → IsIndexed s → IsIndexed (write_all ws s)
write_all-IsIndexed [] s h = h
write_all-IsIndexed (w ∷ ws) s h = write_all-IsIndexed ws (write w s) (write-IsIndexed w s h)

metas-keys :
    (s : Sessions)
    → All (λ (e : String × StoredSession). e.1.snapshot.session_id ≡ e.0) s
    → map (λ m. m.session_id) (metas s) ≡ keys s
unfolding metas
metas-keys [] h = refl
metas-keys ((k, st) ∷ s) h = cc (h.0, metas-keys s h.1)

-- After any writes to an empty store no session is stored twice, and `list` names exactly the
-- stored sessions, each once and in the order of the store.
pub list-write_all :
    (ws : List Write)
    → let s = write_all ws [] in
      IsDistinct s
      × ((ms : List SessionMeta) × (list s ≡ ok ms) × (map (λ m. m.session_id) ms ≡ keys s))
unfolding list
list-write_all ws =
    let h = write_all-IsIndexed ws [] (record { distinct = tt; keyed = tt }) in
    (h.distinct, (metas (write_all ws []), refl, metas-keys (write_all ws []) h.keyed))
