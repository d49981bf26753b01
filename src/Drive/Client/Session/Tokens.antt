-- ===== src/Drive/Client/Session/Tokens.antt =====
-- client.py and coap_config.py: how long a session of the client lasts.
use mathlib.Core.Bool.{false≢true}
use coap_share_drive.Base.{
  ℕ, suc, ◌-◌, ◌<◌, ◌≤◌, ◌≡◌, refl, ◌⊎◌, inl, inr, Bool, true, false, ◌||◌, Option, none, some,
  List, [], ◌∷◌, arith, length, ap, sym, ◌∙◌,
}
use coap_share_drive.Base.Outcome.{Outcome, Exc, ok, err}
use coap_share_drive.Packet.Decode.{JsonCodec}
use coap_share_drive.Worker.Pool.{handle_internal_task}
use coap_share_drive.Drive.Client.{
  Client, Sent, download_file, upload_file, rename_file, move_file, delete_file, fetch_server_data,
}
use coap_share_drive.Drive.Client.Session.Requests.{
  Counts, if_content-Counts, send_task-Counts, and_wait-tokens, without_wait-tokens, and_wait-left,
  without_wait-left, and_wait-asks,
}
use coap_share_drive.Drive.Client.Session.{
  Command, download, upload, rename, move, delete, exit, Session, SessionEnd, Surroundings, asks,
  left, waits, and_wait, without_wait, then_next, run_command, run_choice, client_cli, changed,
}

abbrev pub is_exit : Option Command → Bool
is_exit none = false
is_exit (some (download x y)) = false
is_exit (some (upload x y)) = false
is_exit (some (rename x y)) = false
is_exit (some (move x y)) = false
is_exit (some (delete x)) = false
is_exit (some exit) = true

then_next-asks :
    (r : Session) (next : Client → Session)
    → (then_next r next).2 ≡ ok asks
    → (r.2 ≡ ok asks) × ((next r.0).2 ≡ ok asks) × ((then_next r next).0 ≡ (next r.0).0)
then_next-asks (c, sent, err e) next h = absurd (cc h)
then_next-asks (c, sent, ok left) next h = absurd (cc h)
then_next-asks (c, sent, ok waits) next h = absurd (cc h)
then_next-asks (c, sent, ok asks) next h = (refl, h, refl)

then_next-left :
    (r : Session) (next : Client → Session)
    → (then_next r next).2 ≡ ok left
    → (r.2 ≡ ok left) ⊎ ((next r.0).2 ≡ ok left)
then_next-left (c, sent, err e) next h = absurd (cc h)
then_next-left (c, sent, ok left) next h = inl refl
then_next-left (c, sent, ok waits) next h = absurd (cc h)
then_next-left (c, sent, ok asks) next h = inr h

ended-cases :
    (r : Outcome SessionEnd)
    → (r ≡ ok asks) ⊎ (r ≡ ok left) ⊎ (r ≡ ok waits) ⊎ ((e : Exc) × (r ≡ err e))
ended-cases (ok asks) = inl refl
ended-cases (ok left) = inr (inl refl)
ended-cases (ok waits) = inr (inr (inl refl))
ended-cases (err e) = inr (inr (inr (e, refl)))

abbrev pub has_exit : List (Option Command) → Bool
has_exit [] = false
has_exit (choice ∷ later) = is_exit choice || has_exit later

or-right : (a b : Bool) → b ≡ true → a || b ≡ true
or-right true b h = refl
or-right false b h = h

module _ (json : JsonCodec) (s : Surroundings) where
  -- The operation takes no token back, and does not leave unless it is Exit.
  record Kept (choice : Option Command) (c : Client) (r : Session) : Type 0 where
    no_fewer : c.tokens ≤ r.0.tokens
    stays : (r.2 ≡ ok left) → is_exit choice ≡ true

  waiting :
      (i : ℕ) (choice : Option Command) (c : Client) (r : Sent)
      → Counts c r
      → Kept choice c (and_wait (s.pools i true) r)
  waiting i choice c r k = record {
    no_fewer = omega (arith, k.no_fewer, and_wait-tokens (s.pools i true) r);
    stays = λ h. absurd (and_wait-left (s.pools i true) r h);
  }

  at_once :
      (choice : Option Command) (c : Client) (r : Sent)
      → Counts c r
      → Kept choice c (without_wait r)
  at_once choice c r k = record {
    no_fewer = omega (arith, k.no_fewer, without_wait-tokens r);
    stays = λ h. absurd (without_wait-left r h);
  }

  run_command-Kept :
      (i : ℕ) (choice : Option Command) (c : Client) → Kept choice c (run_command json s i choice c)
  unfolding run_command download_file upload_file rename_file move_file delete_file
  run_command-Kept i none c = record { no_fewer = omega arith; stays = λ h. absurd (cc h) }
  run_command-Kept i (some (download x y)) c = waiting i _ c _ (
      if_content-Counts json (s.now i true) s.server c _
        (send_task-Counts json (s.now i true) s.server _ _ c))
  run_command-Kept i (some (upload x y)) c =
      waiting i _ c _ (send_task-Counts json (s.now i true) s.server _ _ c)
  run_command-Kept i (some (rename x y)) c = at_once _ c _ (
      if_content-Counts json (s.now i true) s.server c _
        (send_task-Counts json (s.now i true) s.server _ _ c))
  run_command-Kept i (some (move x y)) c = at_once _ c _ (
      if_content-Counts json (s.now i true) s.server c _
        (send_task-Counts json (s.now i true) s.server _ _ c))
  run_command-Kept i (some (delete x)) c = at_once _ c _ (
      if_content-Counts json (s.now i true) s.server c _
        (send_task-Counts json (s.now i true) s.server _ _ c))
  run_command-Kept i (some exit) c = record { no_fewer = omega arith; stays = λ h. refl }

  -- The request of the server's data takes a token, and raises where none is left.
  fetch-asks :
      (i : ℕ) (c : Client)
      → (and_wait (s.pools i false) (fetch_server_data json (s.now i false) s.server c)).2 ≡ ok asks
      → (c.tokens < 256)
        × ((and_wait (s.pools i false) (fetch_server_data json (s.now i false) s.server c)).0.tokens
            ≡ suc c.tokens)
  unfolding fetch_server_data
  fetch-asks i c h =
      let r : Sent = fetch_server_data json (s.now i false) s.server c in
      let k : Counts c r = send_task-Counts json (s.now i false) s.server _ _ c in
      let (x, e) =
        and_wait-asks _ (s.pools i false)
          (handle_internal_task json (s.now i false) _ c.tokens c.workers) h in
      let (taken, few) = k.one_each x e in (few, and_wait-tokens (s.pools i false) r ∙ taken)

  -- A round that comes to its end has had a token to take.
  run_choice-asks :
      (i : ℕ) (choice : Option Command) (c : Client)
      → (run_choice json s i choice c).2 ≡ ok asks
      → (c.tokens < 256) × (suc c.tokens ≤ (run_choice json s i choice c).0.tokens)
  unfolding run_choice
  run_choice-asks i choice c h =
      let next : Client → Session = λ c'.
        run_command json s i choice (changed (s.meanwhile i false c'.workers c'.assembler) c') in
      let r : Session =
        and_wait (s.pools i false) (fetch_server_data json (s.now i false) s.server c) in
      let (e, e', same) = then_next-asks r next h in
      let (few, taken) = fetch-asks i c e in
      let k =
        run_command-Kept i choice (changed (s.meanwhile i false r.0.workers r.0.assembler) r.0) in
      (few, omega (arith, k.no_fewer, taken, ap (λ c. c.tokens) same))

  run_choice-left :
      (i : ℕ) (choice : Option Command) (c : Client)
      → (run_choice json s i choice c).2 ≡ ok left
      → is_exit choice ≡ true
  unfolding run_choice
  run_choice-left i choice c h =
      let next : Client → Session = λ c'.
        run_command json s i choice (changed (s.meanwhile i false c'.workers c'.assembler) c') in
      let r : Session =
        and_wait (s.pools i false) (fetch_server_data json (s.now i false) s.server c) in
      elim (then_next-left r next h) [
        | inl e ↦ absurd (and_wait-left (s.pools i false) _ e)
        | inr e ↦ (run_command-Kept i choice _).stays e
      ]

  -- A session that comes to the end of its choices has had a token for each.
  client_cli-asks :
      (i : ℕ) (choices : List (Option Command)) (c : Client)
      → (client_cli json s i choices c).2 ≡ ok asks
      → length choices ≤ 256 - c.tokens
  unfolding client_cli
  client_cli-asks i [] c h = omega arith
  client_cli-asks i (choice ∷ later) c h =
      let next : Client → Session = λ c'.
        client_cli json s (suc i) later (changed (s.meanwhile i true c'.workers c'.assembler) c') in
      let r : Session = run_choice json s i choice c in
      let (e, e', same) = then_next-asks r next h in
      let (few, more) = run_choice-asks i choice c e in
      omega (arith, few, more, client_cli-asks (suc i) later _ e')

  client_cli-left :
      (i : ℕ) (choices : List (Option Command)) (c : Client)
      → (client_cli json s i choices c).2 ≡ ok left
      → has_exit choices ≡ true
  unfolding client_cli
  client_cli-left i [] c h = absurd (cc h)
  client_cli-left i (choice ∷ later) c h =
      let next : Client → Session = λ c'.
        client_cli json s (suc i) later (changed (s.meanwhile i true c'.workers c'.assembler) c') in
      elim (then_next-left (run_choice json s i choice c) next h) [
        | inl e ↦ rw (run_choice-left i choice c e) refl
        | inr e ↦ or-right (is_exit choice) _ (client_cli-left (suc i) later _ e)
      ]

  -- From `c.tokens` calls of gen_token on, a session of more than 256 - c.tokens choices, none of them
  -- Exit, does not get through them: an exception ends it, or it waits for an answer for ever.
  pub client_cli-gets_stuck :
      (choices : List (Option Command)) (c : Client)
      → has_exit choices ≡ false
      → 256 - c.tokens < length choices
      → ((client_cli json s 0 choices c).2 ≡ ok waits)
        ⊎ ((e : Exc) × ((client_cli json s 0 choices c).2 ≡ err e))
  client_cli-gets_stuck choices c stay many = elim (ended-cases (client_cli json s 0 choices c).2) [
    | inl e ↦ absurd (omega (arith, many, client_cli-asks 0 choices c e))
    | inr (inl e) ↦ absurd (false≢true (sym stay ∙ client_cli-left 0 choices c e))
    | inr (inr e) ↦ e
  ]
