-- ===== src/Forwarder/HalfClose.antt =====
-- The forwarding of TCP connections, where the end of one direction leaves the other one alone.
use sidero_proxy.Base.{
  ◌≡◌, refl, sym, ap, ◌∙◌, subst, true, false, List, [], ◌∷◌, ◌++◌, append-nil, if◌then◌else◌,
  Bytes, arith,
}
use sidero_proxy.Forwarder.{
  Phase, copying, copied, returned, Pipe, PipeStep, copies, ends, fails, closes, Can, advance,
  beside, Forwarding, Step, up_step, down_step, move, run, IsRun, proxied, has_returned,
  is_returned, closed_phase, writable, write_closed, Destination,
}
use sidero_proxy.Forwarder.Delivery.{
  is_broken, is_clean_end, Delivers, BothDeliver, run-proxied-Delivers,
}

-- The source can still be read, and the destination can be written until its goroutine is done, which
-- then has closed that side of it only.
pub record IsHalfClosed (p : Pipe) : Type 0 where
  pub tcp : p.is_tcp ≡ true
  pub readable : p.source_is_readable ≡ true
  pub closes_once : p.destination ≡ (if is_returned p.phase then write_closed else writable)

advance-IsHalfClosed :
    (e : PipeStep) (p : Pipe) → Can e p → IsHalfClosed p → IsHalfClosed (advance e p)
unfolding advance
advance-IsHalfClosed (copies n) p can h = record {
  tcp = h.tcp;
  readable = h.readable;
  closes_once = h.closes_once;
}
advance-IsHalfClosed ends p (copying_now, _, _) h = record {
  tcp = h.tcp;
  readable = h.readable;
  closes_once =
      h.closes_once ∙ ap (λ t. if is_returned t then write_closed else writable) copying_now;
}
advance-IsHalfClosed (fails taken written) p (copying_now, _, _, _) h = record {
  tcp = h.tcp;
  readable = h.readable;
  closes_once =
      h.closes_once ∙ ap (λ t. if is_returned t then write_closed else writable) copying_now;
}
advance-IsHalfClosed closes p (clean, copied_now) h = record {
  tcp = h.tcp;
  readable = h.readable;
  closes_once =
      ap (λ t. if t then write_closed else Destination.closed) h.tcp
      ∙ sym (ap (λ t. if is_returned (closed_phase t) then write_closed else writable) copied_now);
}

beside-IsHalfClosed :
    (e : PipeStep) (p q : Pipe) → IsHalfClosed p → IsHalfClosed q → IsHalfClosed (beside e p q)
unfolding beside
beside-IsHalfClosed (copies n) p q hp h = h
beside-IsHalfClosed ends p q hp h = h
beside-IsHalfClosed (fails taken written) p q hp h = h
beside-IsHalfClosed closes p q hp h = record {
  tcp = h.tcp;
  readable = ground (arith, hp.tcp, h.readable);
  closes_once = h.closes_once;
}

run-IsHalfClosed :
    (es : List Step) (f : Forwarding)
    → IsRun es f
    → IsHalfClosed f.up
    → IsHalfClosed f.down
    → IsHalfClosed (Forwarding.up (run es f)) × IsHalfClosed (Forwarding.down (run es f))
unfolding run IsRun move
run-IsHalfClosed [] f _ up down = (up, down)
run-IsHalfClosed (up_step e ∷ es) f (can, more) up down =
    run-IsHalfClosed es (move (up_step e) f) more (advance-IsHalfClosed e f.up can up)
      (beside-IsHalfClosed e f.up f.down up down)
run-IsHalfClosed (down_step e ∷ es) f (can, more) up down =
    run-IsHalfClosed es (move (down_step e) f) more (beside-IsHalfClosed e f.down f.up down up)
      (advance-IsHalfClosed e f.down can down)

-- A goroutine that has passed a whole stream on to a TCP connection.
abbrev pub finished : Bytes → Pipe
finished stream = record {
  unread = [];
  delivered = stream;
  phase = returned true;
  destination = write_closed;
  source_is_readable = true;
  is_tcp = true;
}

returned_whole :
    (phase : Phase) → is_returned phase ≡ true → is_broken phase ≡ false → phase ≡ returned true
returned_whole copying done whole = absurd (ground (arith, done))
returned_whole (copied clean) done whole = absurd (ground (arith, done))
returned_whole (returned true) done whole = refl
returned_whole (returned false) done whole = absurd (ground (arith, whole))

pipe-finished :
    (stream : Bytes) (p : Pipe)
    → Delivers stream p
    → IsHalfClosed p
    → is_returned p.phase ≡ true
    → is_broken p.phase ≡ false
    → p ≡ finished stream
pipe-finished stream p h half done whole =
    let over : p.phase ≡ returned true = returned_whole p.phase done whole in
    let read : p.unread ≡ [] = h.all_read (ap is_clean_end over) in
    let sent : p.delivered ≡ stream =
      sym (append-nil p.delivered)
      ∙ ap (λ t. p.delivered ++ t) (sym (h.not_lost whole ∙ read))
      ∙ h.in_order in
    let shut : p.destination ≡ write_closed =
      half.closes_once ∙ ap (λ t. if is_returned t then write_closed else writable) over in
    λ i. record {
      unread = read i;
      delivered = sent i;
      phase = over i;
      destination = shut i;
      source_is_readable = half.readable i;
      is_tcp = half.tcp i;
    }

-- When `Proxy` has returned for two TCP connections and neither copy broke off, then each end has got
-- exactly the bytes that the other one sent, however the two goroutines took turns; both connections
-- are closed for writing, and neither was closed for reading.
pub run-proxied_complete :
    (from_client from_backend : Bytes) (es : List Step) (f : Forwarding)
    → IsRun es (proxied from_client from_backend true true)
    → run es (proxied from_client from_backend true true) ≡ f
    → has_returned f ≡ true
    → is_broken (Pipe.phase f.up) ≡ false
    → is_broken (Pipe.phase f.down) ≡ false
    → f ≡ record { up = finished from_client; down = finished from_backend }
unfolding proxied
run-proxied_complete from_client from_backend es f steps ran done up_whole down_whole =
    let start = proxied from_client from_backend true true in
    let fresh_up : IsHalfClosed start.up = record {
      tcp = refl;
      readable = refl;
      closes_once = refl;
    } in
    let fresh_down : IsHalfClosed start.down = record {
      tcp = refl;
      readable = refl;
      closes_once = refl;
    } in
    let (up, down) = run-IsHalfClosed es start steps fresh_up fresh_down in
    let both =
      subst (λ t. BothDeliver from_client from_backend t) ran
        (run-proxied-Delivers from_client from_backend true true es steps) in
    let half_up = subst (λ t. IsHalfClosed (Forwarding.up t)) ran up in
    let half_down = subst (λ t. IsHalfClosed (Forwarding.down t)) ran down in
    let up_done : is_returned (Pipe.phase f.up) ≡ true = ground (arith, done) in
    let down_done : is_returned (Pipe.phase f.down) ≡ true = ground (arith, done) in
    λ i. record {
      up = pipe-finished from_client f.up both.to_backend half_up up_done up_whole i;
      down = pipe-finished from_backend f.down both.to_client half_down down_done down_whole i;
    }
