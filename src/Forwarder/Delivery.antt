-- ===== src/Forwarder/Delivery.antt =====
-- What reaches the two ends of a forwarded connection.
use sidero_proxy.Base.{
  ◌≡◌, refl, sym, ap, ◌∙◌, Bool, true, false, not, List, [], ◌∷◌, ◌++◌, append_assoc, take, drop, ℕ,
  take-append-drop, Bytes, arith,
}
use sidero_proxy.Forwarder.{
  Phase, copying, copied, returned, Pipe, PipeStep, copies, ends, fails, closes, Can, advance,
  beside, Forwarding, Step, up_step, down_step, move, CanMove, run, IsRun, proxied, closed_phase,
}

abbrev pub is_broken : Phase → Bool
is_broken copying = false
is_broken (copied clean) = not clean
is_broken (returned clean) = not clean

abbrev pub is_clean_end : Phase → Bool
is_clean_end copying = false
is_clean_end (copied clean) = clean
is_clean_end (returned clean) = clean

-- The destination has the first bytes of the stream, in order, and unless the copy broke off, the others
-- are still unread; at the end of the stream there are none.
pub record Delivers (stream : Bytes) (p : Pipe) : Type 0 where
  pub rest : Bytes
  pub in_order : p.delivered ++ rest ≡ stream
  pub not_lost : is_broken p.phase ≡ false → rest ≡ p.unread
  pub all_read : is_clean_end p.phase ≡ true → p.unread ≡ []

cut_after :
    (n : ℕ) (before unread stream : Bytes)
    → before ++ unread ≡ stream
    → (before ++ take n unread) ++ drop n unread ≡ stream
cut_after n before unread stream h =
    append_assoc before (take n unread) (drop n unread)
    ∙ ap (λ t. before ++ t) (take-append-drop n unread)
    ∙ h

unread_in_order :
    (stream : Bytes) (p : Pipe)
    → p.phase ≡ copying
    → Delivers stream p
    → p.delivered ++ p.unread ≡ stream
unread_in_order stream p copying_now h =
    ap (λ t. p.delivered ++ t) (sym (h.not_lost (ap is_broken copying_now))) ∙ h.in_order

advance-Delivers :
    (stream : Bytes) (e : PipeStep) (p : Pipe)
    → Can e p
    → Delivers stream p
    → Delivers stream (advance e p)
unfolding advance
advance-Delivers stream (copies n) p (copying_now, _, _, _) h = record {
  rest = drop n p.unread;
  in_order = cut_after n p.delivered p.unread stream (unread_in_order stream p copying_now h);
  not_lost = λ _. refl;
  all_read = λ clean. absurd (ground (arith, clean, ap is_clean_end copying_now));
}
advance-Delivers stream ends p (copying_now, _, none_left) h = record {
  rest = p.unread;
  in_order = unread_in_order stream p copying_now h;
  not_lost = λ _. refl;
  all_read = λ _. none_left;
}
advance-Delivers stream (fails taken written) p (copying_now, _, _, _) h = record {
  rest = drop written p.unread;
  in_order = cut_after written p.delivered p.unread stream (unread_in_order stream p copying_now h);
  not_lost = λ whole. absurd (ground (arith, whole));
  all_read = λ clean. absurd (ground (arith, clean));
}
advance-Delivers stream closes p (clean, copied_now) h = record {
  rest = h.rest;
  in_order = h.in_order;
  not_lost = λ whole.
      h.not_lost
        (ap is_broken copied_now ∙ sym (ap (λ t. is_broken (closed_phase t)) copied_now) ∙ whole);
  all_read = λ end.
      h.all_read (
        ap is_clean_end copied_now
        ∙ sym (ap (λ t. is_clean_end (closed_phase t)) copied_now)
        ∙ end);
}

beside-Delivers :
    (stream : Bytes) (e : PipeStep) (p q : Pipe)
    → Delivers stream q
    → Delivers stream (beside e p q)
unfolding beside
beside-Delivers stream (copies n) p q h = h
beside-Delivers stream ends p q h = h
beside-Delivers stream (fails taken written) p q h = h
beside-Delivers stream closes p q h = record {
  rest = h.rest;
  in_order = h.in_order;
  not_lost = h.not_lost;
  all_read = h.all_read;
}

pub record BothDeliver (from_client from_backend : Bytes) (f : Forwarding) : Type 0 where
  pub to_backend : Delivers from_client f.up
  pub to_client : Delivers from_backend f.down

move-BothDeliver :
    (a b : Bytes) (e : Step) (f : Forwarding)
    → CanMove e f
    → BothDeliver a b f
    → BothDeliver a b (move e f)
unfolding move
move-BothDeliver a b (up_step e) f can h = record {
  to_backend = advance-Delivers a e f.up can h.to_backend;
  to_client = beside-Delivers b e f.up f.down h.to_client;
}
move-BothDeliver a b (down_step e) f can h = record {
  to_backend = beside-Delivers a e f.down f.up h.to_backend;
  to_client = advance-Delivers b e f.down can h.to_client;
}

run-BothDeliver :
    (a b : Bytes) (es : List Step) (f : Forwarding)
    → IsRun es f
    → BothDeliver a b f
    → BothDeliver a b (run es f)
unfolding run IsRun
run-BothDeliver a b [] f _ h = h
run-BothDeliver a b (e ∷ es) f (can, more) h =
    run-BothDeliver a b es (move e f) more (move-BothDeliver a b e f can h)

-- However the steps of the two goroutines interleave and wherever they fail: each end has got the first
-- bytes of what the other end sends, in their order; unless the copy broke off, the others are still
-- unread, and none are left once it has come to the end of the stream.
pub run-proxied-Delivers :
    (from_client from_backend : Bytes) (client_tcp backend_tcp : Bool) (es : List Step)
    → IsRun es (proxied from_client from_backend client_tcp backend_tcp)
    → BothDeliver from_client from_backend
        (run es (proxied from_client from_backend client_tcp backend_tcp))
unfolding proxied
run-proxied-Delivers from_client from_backend client_tcp backend_tcp es steps =
    run-BothDeliver from_client from_backend es
      (proxied from_client from_backend client_tcp backend_tcp) steps
      (record {
        to_backend = record {
          rest = from_client;
          in_order = refl;
          not_lost = λ _. refl;
          all_read = λ clean. absurd (ground (arith, clean));
        };
        to_client = record {
          rest = from_backend;
          in_order = refl;
          not_lost = λ _. refl;
          all_read = λ clean. absurd (ground (arith, clean));
        };
      })
