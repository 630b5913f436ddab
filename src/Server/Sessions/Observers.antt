-- ===== src/Server/Sessions/Observers.antt =====
-- Channels that observe sessions: registering one, and what removing one does.
use eris_db.Base.{ℕ, suc, ◌+◌, ◌≡◌, refl, ap, ◌∙◌, List, [], ◌∷◌, ◌++◌, arith, length, map}
use eris_db.Server.IdPool.{count, count-append}
use eris_db.Server.Sessions.{
  SessionManager, session_open_event_channel, remove_session_open_event_channel, notify_opened,
  remove_chan, overwrite, last_chan, remove_session_close_event_channel, notify_closed,
}

length-overwrite : (c last : ℕ) (cs : List ℕ) → length (overwrite c last cs).0 ≡ length cs
unfolding overwrite
length-overwrite c last [] = refl
length-overwrite c last (d ∷ cs) = ground (arith, length-overwrite c last cs)

length-remove_chan : (cs : List ℕ) (c : ℕ) → length (remove_chan cs c).0 ≡ length cs
unfolding remove_chan
length-remove_chan [] c = refl
length-remove_chan (d ∷ cs) c = length-overwrite c (last_chan d cs) (d ∷ cs)

length-map : {A B : Type 0} (f : A → B) (xs : List A) → length (map f xs) ≡ length xs
length-map f [] = refl
length-map f (x ∷ xs) = ap suc (length-map f xs)

-- Removing a listener, found or not, leaves as many messages to send when a session opens or closes.
pub remove_keeps_count :
    (m : SessionManager) (c p : ℕ)
    → (length (notify_opened (remove_session_open_event_channel m c).0 p)
        ≡ length (notify_opened m p))
      × (length (notify_closed (remove_session_close_event_channel m c).0 p)
          ≡ length (notify_closed m p))
unfolding notify_opened notify_closed remove_session_open_event_channel
    remove_session_close_event_channel
remove_keeps_count m c p = (
  omega (
    arith,
    length-map {B = ℕ × ℕ} (λ d. (d, p)) (remove_chan m.open_event_chans c).0,
    length-map {B = ℕ × ℕ} (λ d. (d, p)) m.open_event_chans,
    length-remove_chan m.open_event_chans c,
  ),
  omega (
    arith,
    length-map {B = ℕ × ℕ} (λ d. (d, p)) (remove_chan m.close_event_chans c).0,
    length-map {B = ℕ × ℕ} (λ d. (d, p)) m.close_event_chans,
    length-remove_chan m.close_event_chans c,
  ),
)

count-overwrite_last : (c : ℕ) (cs : List ℕ) → count c (overwrite c c cs).0 ≡ count c cs
unfolding overwrite
count-overwrite_last c [] = refl
count-overwrite_last c (d ∷ cs) = ground (arith, count-overwrite_last c cs)

last_chan-append : (c d : ℕ) (cs : List ℕ) → last_chan d (cs ++ c ∷ []) ≡ c
last_chan-append c d [] = refl
last_chan-append c d (x ∷ cs) = last_chan-append c x cs

count_one : (c : ℕ) → count c (c ∷ []) ≡ 1
count_one c = ground arith

remove_chan_last : (c : ℕ) (cs : List ℕ) → count c (remove_chan (cs ++ c ∷ []) c).0 ≡ count c cs + 1
unfolding remove_chan
remove_chan_last c [] = omega (arith, count-overwrite_last c (c ∷ []), count_one c)
remove_chan_last c (d ∷ cs) =
    ap (λ l. count c (overwrite c l (d ∷ (cs ++ c ∷ []))).0) (last_chan-append c d cs)
    ∙ omega (
      arith,
      count-overwrite_last c (d ∷ (cs ++ c ∷ [])),
      count-append c (d ∷ cs) (c ∷ []),
      count_one c,
    )

-- After a channel is registered for opened sessions and removed at once, it stands once more among
-- the registered ones than before both.
remove_last_ineffective :
    (m : SessionManager) (c : ℕ)
    → count c
        (remove_session_open_event_channel (session_open_event_channel m c) c).0.open_event_chans
      ≡ count c m.open_event_chans + 1
unfolding remove_session_open_event_channel session_open_event_channel
remove_last_ineffective m c = remove_chan_last c m.open_event_chans
