-- ===== src/Gate/Once.antt =====
-- autonomy/gate.py: `should_notify`, called again with the same title.
use cogito_agent.Prelude.{
  ℕ, ◌+◌, ◌*◌, ◌≤◌, ◌≡◌, inl, inr, String, true, false, ◌&&◌, none, leb, arith, Bool-cases, ◌=s◌,
  =s_refl,
}
use cogito_agent.Sql.Laws.{rowcount-append}
use cogito_agent.Gate.{push, GateDb, Notification, no_config, build_dedup_key}
use cogito_agent.Gate.Quota.{is_duplicate}
use cogito_agent.Gate.Judge.{Floats, default_judge}
use cogito_agent.Gate.Evaluate.{Gate, evaluate, dedup_hit_of, NotificationDecision}
use cogito_agent.Gate.Pushes.{push_requires}
use cogito_agent.Gate.Notify.{
  NotifyDb, NotifyEnv, should_notify, record_notification, persist_decision, pushes, plain_event,
}

-- A notification is a duplicate of the one that was recorded last, within the window.
is_duplicate-record :
    (env : NotifyEnv) (w title body decision priority key : String) (db : GateDb) (minutes now : ℕ)
    → leb now (env.now + minutes * 60) ≡ true
    → is_duplicate (record_notification env w title body decision priority key db) w key minutes now
      ≡ true
unfolding is_duplicate record_notification
is_duplicate-record env w title body decision priority key db minutes now h =
    rw
      (
        rowcount-append
            (λ (n : Notification).
              n.workspace_id =s w && (n.event_hash =s key && leb now (n.sent_at + minutes * 60)))
            db.notifications _,
        =s_refl w,
        =s_refl key,
        h,
      )
      (ground arith)

abbrev pushed : Gate → NotifyEnv → String → String → String → String → NotifyDb → GateDb
pushed g env w title body priority db =
    record_notification env w title body "push" priority
      (build_dedup_key g.sha256 (plain_event env w title body priority)) db.gate_db

pushes-push : (d : NotificationDecision) → pushes d ≡ true → d.action ≡ push
pushes-push d h = ground arith

should_notify-gate_db :
    (F : Floats) (g : Gate) (env : NotifyEnv) (w title body priority : String) (db : NotifyDb)
    → (should_notify F g env w title body priority db).1 ≡ true
    → (should_notify F g env w title body priority db).0.gate_db
      ≡ pushed g env w title body priority db
unfolding should_notify persist_decision
should_notify-gate_db F g env w title body priority db h = ground arith

should_notify-evaluate :
    (F : Floats) (g : Gate) (env : NotifyEnv) (w title body priority : String) (db : NotifyDb)
    → (should_notify F g env w title body priority db).1
      ≡ pushes (
          evaluate F g none
            (default_judge F)
            db.gate_db
            env.now
            (plain_event env w title body priority))
unfolding should_notify
should_notify-evaluate F g env w title body priority db = ground arith

-- The event of the second call is a duplicate of the first.
evaluate_again :
    (F : Floats) (g : Gate) (first second : NotifyEnv)
    (w title body body' priority priority' : String) (db : NotifyDb)
    → second.now ≤ first.now + 7200
    → pushes (
        evaluate F g none
          (default_judge F)
          (pushed g first w title body priority db)
          second.now
          (plain_event second w title body' priority'))
      ≡ false
unfolding dedup_hit_of build_dedup_key
evaluate_again F g first second w title body body' priority priority' db late =
    let e = plain_event second w title body' priority' in
    let db' = pushed g first w title body priority db in
    let d = evaluate F g none (default_judge F) db' second.now e in
    elim (Bool-cases (pushes d)) [
      | inr h ↦ h
      | inl h ↦
          let dup : dedup_hit_of g.sha256 db' no_config second.now e ≡ true =
            is_duplicate-record first w title body "push" priority _ db.gate_db 120 second.now
              (ground arith) in
          ground (
            arith,
            dup,
            push_requires F g none (default_judge F) db' second.now e (pushes-push d h),
          )
    ]

-- After `should_notify` has pushed a notification of a workspace, one with the same title is not
-- pushed there within two hours, whatever its body and priority are.
pub notify_once :
    (F : Floats) (g : Gate) (first second : NotifyEnv)
    (w title body body' priority priority' : String) (db : NotifyDb)
    → (should_notify F g first w title body priority db).1 ≡ true
    → second.now ≤ first.now + 7200
    → (should_notify F g second w title body' priority'
        (should_notify F g first w title body priority db).0).1
      ≡ false
notify_once F g first second w title body body' priority priority' db h late =
    rw (should_notify-evaluate, should_notify-gate_db F g first w title body priority db h)
      (evaluate_again F g first second w title body body' priority priority' db late)
