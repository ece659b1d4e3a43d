-- ===== src/Log/Stall.antt =====
-- A syslog handler whose worker has returned.
use df.Prelude.{
  ℕ, ◌+◌, ◌≤◌, ◌<◌, ◌≡◌, refl, sym, ap, ◌∙◌, arith, List, [], ◌∷◌, ◌++◌, length, append-nil,
  append_assoc, length-append, Option, none, some, lt→ltb, le→ltb, if◌then◌else◌,
}
use df.Log.{LogMessage, Texts}
use df.Log.Handlers.{
  SyslogHandler, Handler, syslog_handler, ch_size, gone, sent_on, send_on, write, Step, starts,
  fails, takes, stops, writes, cancels, formats, Reach, here, next,
}
use df.Log.Logger.{
  LoggerBuiltin, FuncInfo, then_rest, write_all, with_handlers, make_message, print,
}

abbrev and_send :
    Option SyslogHandler → (SyslogHandler → Option SyslogHandler) → Option SyslogHandler
and_send none f = none
and_send (some h) f = f h

-- One `Write` after the other.
unfoldable pub send_all : List LogMessage → SyslogHandler → Option SyslogHandler
send_all [] h = some h
send_all (m ∷ ms) h = and_send (send_on m h) (send_all ms)

send_on-fits :
    (m : LogMessage) (q : List LogMessage) (h : SyslogHandler)
    → h.ch ≡ some q
    → length q < ch_size
    → send_on m h ≡ some (record h { ch = some (q ++ m ∷ []) })
unfolding send_on
send_on-fits m q h e fits =
    ap (sent_on m h) e
    ∙ ap (λ b. if b then some (record h { ch = some (q ++ m ∷ []) }) else none)
        (lt→ltb (length q) ch_size fits)

send_all-fits :
    (ms q : List LogMessage) (h : SyslogHandler)
    → h.ch ≡ some q
    → length q + length ms ≤ ch_size
    → send_all ms h ≡ some (record h { ch = some (q ++ ms) })
unfolding send_all send_on
send_all-fits [] q h e fits =
    ap (λ t. some (record h { ch = t })) (e ∙ ap some (sym (append-nil q)))
send_all-fits (m ∷ ms) q h e fits =
    let h' : SyslogHandler = record h { ch = some (q ++ m ∷ []) } in
    rw (send_on-fits m q h e (omega arith)) (
      send_all-fits ms (q ++ m ∷ []) h' refl (omega (arith, length-append q (m ∷ [])))
      ∙ ap (λ t. some (record h { ch = some t })) (append_assoc q (m ∷ []) ms))

-- The channel is full, and nobody receives.
abbrev IsFull : SyslogHandler → Type 0
IsFull h = (h.worker ≡ gone) × (q : List LogMessage) × (h.ch ≡ some q) × (ch_size ≤ length q)

IsFull-blocks : (m : LogMessage) (h : SyslogHandler) → IsFull h → send_on m h ≡ none
unfolding send_on
IsFull-blocks m h (w, q, e, full) =
    ap (sent_on m h) e
    ∙ ap (λ b. if b then some (record h { ch = some (q ++ m ∷ []) }) else none)
        (le→ltb (length q) ch_size full)

Step-IsFull : {s t : SyslogHandler} → IsFull s → Step s t → IsFull t
Step-IsFull (w, q, e, full) (starts h) = cc
Step-IsFull (w, q, e, full) (fails h) = cc
Step-IsFull (w, q, e, full) (takes m r h e') = cc
Step-IsFull (w, q, e, full) (stops h k) = cc
Step-IsFull {s} (w, q, e, full) (writes m h) = let blocked = IsFull-blocks m s (w, q, e, full) in cc
Step-IsFull (w, q, e, full) cancels = (w, q, e, full)
Step-IsFull (w, q, e, full) (formats format) = (w, q, e, full)

Reach-IsFull : {s t : SyslogHandler} → IsFull s → Reach s t → IsFull t
Reach-IsFull h here = h
Reach-IsFull h (next r st) = Step-IsFull (Reach-IsFull h r) st

module _ (texts : Texts) where
  then_rest-none : (o : Option Handler) → then_rest o none ≡ none
  then_rest-none none = refl
  then_rest-none (some h) = refl

  -- A handler that blocks keeps the loop.
  write_all-blocks :
      (m : LogMessage) (u : SyslogHandler) (hs more : List Handler)
      → send_on m u ≡ none
      → write_all texts m (hs ++ (syslog_handler u ∷ more)) ≡ none
  unfolding write_all write
  write_all-blocks m u [] more e = rw e refl
  write_all-blocks m u (h ∷ hs) more e =
      ap (then_rest (write texts m h)) (write_all-blocks m u hs more e)
      ∙ then_rest-none (write texts m h)

  -- Once the worker of a syslog handler has returned, and left a channel, as many messages as there is
  -- room for among 1024 still go into the channel; and from then on, whatever is done to the handler,
  -- every call that logs a message of the logger's level or more urgent, over any handlers with that
  -- one among them, never returns.
  pub logging_blocks :
      (ms q : List LogMessage) (s : SyslogHandler) {u : SyslogHandler} (now : ℕ) (fi : FuncInfo)
      (lev : ℕ) (body : List ℕ) (l : LoggerBuiltin) (hs more : List Handler)
      → s.worker ≡ gone
      → s.ch ≡ some q
      → length q + length ms ≡ ch_size
      → Reach (record s { ch = some (q ++ ms) }) u
      → l.handlers ≡ hs ++ (syslog_handler u ∷ more)
      → lev ≤ l.lev
      → (send_all ms s ≡ some (record s { ch = some (q ++ ms) }))
        × (print texts now fi lev body l ≡ none)
  unfolding print
  logging_blocks ms q s {u} now fi lev body l hs more w e full r among urgent =
      let m = make_message now fi l lev body in
      let still = Reach-IsFull (w, q ++ ms, refl, omega (arith, length-append q ms)) r in
      (
        send_all-fits ms q s e (omega arith),
        rw (le→ltb l.lev lev urgent) (
            ap (λ t. with_handlers l (write_all texts m t)) among
            ∙ ap (with_handlers l) (write_all-blocks m u hs more (IsFull-blocks m u still))),
      )
