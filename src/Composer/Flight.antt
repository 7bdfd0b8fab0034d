-- ===== src/Composer/Flight.antt =====
-- The messages and uploads of a composer that are under way, and what the gateway makes of a message
-- that it sends.
use internship_project.Base.{
  ℕ, ◌+◌, ◌-◌, ◌≤◌, ◌<◌, ◌≡◌, refl, inl, inr, Bool, true, false, not, ◌||◌, arith, Option, none,
  some, Text, trim, trim-trim, length, length-trim, indicator, Bool-cases,
}
use mathlib.Core.Option.{some-injective}
use internship_project.Schema.{GroupMember, Db}
use internship_project.Events.{RequestId}
use internship_project.Groups.{assert_member}
use internship_project.Messages.{create}
use internship_project.Http.{ok}
use internship_project.Chat.{is_blank, is_sendable, send_message, written}
use internship_project.Composer.{
  message_max_length, Composer, empty, change, submit, Reply, timed_out, no_ack, acked, on_reply,
  pick_file, on_uploaded,
}

-- A composer, and how many of its messages and uploads have not been answered.
pub record World : Type 0 where
  pub composer : Composer
  pub messages : ℕ
  pub uploads : ℕ

abbrev pub sent : Option Text → ℕ
sent none = 0
sent (some t) = 1

pub data Step (w : World) : World → Type 0 where
  typed :
      (text : Text)
      → length text ≤ message_max_length
      → Step w (record w { composer = change text w.composer })
  submitted :
      (ready : Bool)
      → Step w (record w {
        composer = (submit ready w.composer).0;
        messages = w.messages + sent (submit ready w.composer).1;
      })
  replied :
      (r : Reply)
      → 0 < w.messages
      → Step w (record w { composer = on_reply r w.composer; messages = w.messages - 1 })
  picked : Step w (record w {
    composer = (pick_file w.composer).0;
    uploads = w.uploads + sent (pick_file w.composer).1;
  })
  uploaded :
      (error : Option Text)
      → 0 < w.uploads
      → Step w (record w { composer = on_uploaded error w.composer; uploads = w.uploads - 1 })

pub data Reaches (w : World) : World → Type 0 where
  here : Reaches w w
  next : {v u : World} → Reaches w v → Step v u → Reaches w u

-- The flags tell what is under way, and the text fits.
pub record IsSound (w : World) : Type 0 where
  pub one_message : w.messages ≡ indicator w.composer.sending
  pub one_upload : w.uploads ≡ indicator w.composer.uploading
  pub fits : length w.composer.content ≤ message_max_length

Step-IsSound : {w v : World} → IsSound w → Step w v → IsSound v
unfolding submit on_reply pick_file on_uploaded
Step-IsSound i (typed text h) = record {
  one_message = i.one_message;
  one_upload = i.one_upload;
  fits = h;
}
Step-IsSound i (submitted ready) = ground arith
Step-IsSound i (replied timed_out h) = ground arith
Step-IsSound i (replied no_ack h) = ground arith
Step-IsSound i (replied (acked a) h) = ground arith
Step-IsSound i picked = ground arith
Step-IsSound i (uploaded none h) = ground arith
Step-IsSound i (uploaded (some t) h) = ground arith

Reaches-IsSound : {w v : World} → IsSound w → Reaches w v → IsSound v
Reaches-IsSound i here = i
Reaches-IsSound i (next r s) = Step-IsSound (Reaches-IsSound i r) s

abbrev pub idle : World
idle = record { composer = empty; messages = 0; uploads = 0 }

-- What is emitted, and when.
record IsSubmitted (c : Composer) (text : Text) : Type 0 where
  trimmed : trim c.content ≡ text
  filled : is_blank text ≡ false
  free : c.sending ≡ false

submit-IsSubmitted :
    (ready : Bool) (c : Composer) (text : Text)
    → (submit ready c).1 ≡ some text
    → IsSubmitted c text
unfolding submit
submit-IsSubmitted ready c text h =
    elim (Bool-cases (is_blank (trim c.content) || (not ready || c.sending))) [
      | inl e ↦ cc (rw e at h)
      | inr e ↦
          let same : trim c.content ≡ text = some-injective _ _ (rw e at h) in
          record {
            trimmed = same;
            filled = rw (← same) (ground (arith, e));
            free = ground (arith, e);
          }
    ]

-- However keys, submissions, answers, time-outs and uploads come one after another, at most one
-- message and one upload of a composer are under way; and a message that it emits is never refused
-- for its text: the gateway writes that very text for a member of the group.
pub submit-send_message :
    (w : World) (ready : Bool) (text : Text) (id now user_id : ℕ) (group_id : RequestId) (db : Db)
    (m : GroupMember)
    → Reaches idle w
    → (submit ready w.composer).1 ≡ some text
    → assert_member user_id group_id db ≡ ok m
    → (w.messages ≡ 0)
      × (w.uploads ≤ 1)
      × (send_message id now user_id group_id text db
          ≡ written (create id now group_id user_id text db))
unfolding send_message
submit-send_message w ready text id now user_id group_id db m r h member =
    let i =
      Reaches-IsSound (record { one_message = refl; one_upload = refl; fits = omega arith }) r in
    let s = submit-IsSubmitted ready w.composer text h in
    let short : length text ≤ 4000 =
      rw (← s.trimmed) (omega (arith, length-trim w.composer.content, i.fits)) in
    let whole : trim text ≡ text = rw (← s.trimmed) (trim-trim w.composer.content) in
    let sendable : is_sendable text ≡ true = ground (arith, s.filled, short) in
    (rw s.free at i.one_message, ground (arith, i.one_upload), rw (whole, sendable, member) refl)
