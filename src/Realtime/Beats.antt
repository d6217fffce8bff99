-- ===== src/Realtime/Beats.antt =====
-- The heartbeat intervals of frontend/dashboard/src/services/websocket.ts as a list: what clearing one
-- and starting one make of them.
use surakshanet.Base.{
  ℕ, suc, ◌≤◌, ◌<◌, ◌≡◌, refl, String, false, not, some, List, [], ◌∷◌, arith, ◌==◌, str_eq,
  str_eq_iff, or_else, count, All, All-imp, filter,
}
use surakshanet.Base.Dict
use surakshanet.Base.Dict.{Dict}
use surakshanet.Realtime.State.{Beat, Service}

-- The service knows the interval: it can still clear it.
abbrev pub Known : Dict ℕ → ℕ → Beat → Type 0
Known pings next b = (Dict.get pings b.channel ≡ some b.id) × (0 < b.id) × (b.id < next)

abbrev pub Tracked : Service → Type 0
Tracked s = All (Known s.ping_intervals s.next_id) s.beats

-- Another channel's intervals, none of `channel`.
abbrev pub Elsewhere : String → Dict ℕ → ℕ → Beat → Type 0
Elsewhere channel pings next b = Known pings next b × (str_eq channel b.channel ≡ false)

pub forget :
    (channel : String) (pings : Dict ℕ) (next id : ℕ) (bs : List Beat)
    → Dict.get pings channel ≡ some id
    → All (Known pings next) bs
    → All (Elsewhere channel (Dict.remove pings channel) next) (filter (λ b. not (b.id == id)) bs)
forget channel pings next id [] e h = tt
forget channel pings next id (b ∷ bs) e h = ground (
  arith,
  forget channel pings next id bs e,
  str_eq_iff channel b.channel,
  Dict.get-remove pings channel b.channel,
)

pub absent :
    (channel : String) (pings : Dict ℕ) (next : ℕ) (bs : List Beat)
    → or_else (Dict.get pings channel) 0 ≡ 0
    → All (Known pings next) bs
    → All (Elsewhere channel pings next) bs
absent channel pings next [] e h = tt
absent channel pings next (b ∷ bs) e h =
    ground (arith, absent channel pings next bs e, str_eq_iff channel b.channel)

pub renewed :
    (channel : String) (pings : Dict ℕ) (next : ℕ) (bs : List Beat)
    → All (Elsewhere channel pings next) bs
    → All (Known (Dict.put pings channel next) (suc next)) bs
renewed channel pings next [] h = tt
renewed channel pings next (b ∷ bs) h =
    ground (arith, renewed channel pings next bs, Dict.get-put pings channel next b.channel)

pub later :
    (pings : Dict ℕ) (m n : ℕ) (bs : List Beat)
    → m ≤ n
    → All (Known pings m) bs
    → All (Known pings n) bs
later pings m n bs le = All-imp (Known pings m) (Known pings n) bs (λ b h. (h.0, h.1, omega arith))

pub known :
    (channel : String) (pings : Dict ℕ) (next : ℕ) (bs : List Beat)
    → All (Elsewhere channel pings next) bs
    → All (Known pings next) bs
known channel pings next bs =
    All-imp (Elsewhere channel pings next) (Known pings next) bs (λ b h. h.0)

-- The number of a channel's active intervals.
abbrev pub beats_of : String → List Beat → ℕ
beats_of channel = count (λ b. str_eq channel b.channel)

pub none_left :
    (channel : String) (pings : Dict ℕ) (next : ℕ) (bs : List Beat)
    → All (Elsewhere channel pings next) bs
    → beats_of channel bs ≡ 0
none_left channel pings next [] h = refl
none_left channel pings next (b ∷ bs) h = ground (arith, none_left channel pings next bs)

pub fewer :
    (channel : String) (id : ℕ) (bs : List Beat)
    → beats_of channel (filter (λ b. not (b.id == id)) bs) ≤ beats_of channel bs
fewer channel id [] = omega arith
fewer channel id (b ∷ bs) = ground (arith, fewer channel id bs)
