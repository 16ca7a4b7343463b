-- ===== src/Config/Reload/Adopt.antt =====
-- How an input goes on when its channel is read again.
use mptsd.Base.{
  ℕ, zero, suc, ◌+◌, ◌-◌, ◌≤◌, ◌<◌, ◌≡◌, inl, inr, refl, sym, ap, subst, ◌≢◌, ◌∙◌, true, Option,
  none, some, CString, eq_of_str_eq, str_eq_refl, get_or, arith, if◌then◌else◌, Bool-cases,
  Option-cases, le_cases,
}
use mptsd.Channel.{Channel, chansrc_set, chansrc_next}
use mptsd.Channel.Sources.{IsValid, chansrc_set_lem}
use mptsd.Channel.Rotation.{chansrc_next-chansrc_set}
use mptsd.Config.Reload.{new_list, Restreamer, same_source, find_source, adopt}

eq_of_same_source : (a b : Option CString) → same_source a b ≡ true → a ≡ b
eq_of_same_source none b h = absurd (cc)
eq_of_same_source (some s) none h = absurd (cc)
eq_of_same_source (some s) (some t) h = ap some (eq_of_str_eq s t h)

same_source_refl : (s : CString) → same_source (some s) (some s) ≡ true
same_source_refl s = str_eq_refl s

-- What the scan may answer: a place of the list with the source.
abbrev Found : Option CString → Channel → Option ℕ → Type 0
Found old chan none = Unit
Found old chan (some i) = (i < chan.num_src) × (get_or chan.sources i none ≡ old)

find_source-Found :
    (old : Option CString) (chan : Channel) (left i : ℕ) (found : Option ℕ)
    → i + left ≤ chan.num_src
    → Found old chan found
    → Found old chan (find_source old chan left i found)
unfolding find_source
find_source-Found old chan zero i found room f = f
find_source-Found old chan (suc left) i found room f =
    find_source-Found old chan left (i + 1)
      (if same_source old (get_or chan.sources i none) then some i else found) (omega arith)
      (elim (Bool-cases (same_source old (get_or chan.sources i none))) [
        | inl same ↦
            rw same (omega arith, sym (eq_of_same_source old (get_or chan.sources i none) same))
        | inr differ ↦ rw differ f
      ])

find_source-keeps :
    (old : Option CString) (chan : Channel) (left i j : ℕ)
    → (k : ℕ) × (find_source old chan left i (some j) ≡ some k)
unfolding find_source
find_source-keeps old chan zero i j = (j, refl)
find_source-keeps old chan (suc left) i j =
    elim (Bool-cases (same_source old (get_or chan.sources i none))) [
      | inl same ↦ rw same (find_source-keeps old chan left (i + 1) i)
      | inr differ ↦ rw differ (find_source-keeps old chan left (i + 1) j)
    ]

-- A source that is in the list is found.
find_source-found :
    (s : CString) (chan : Channel) (left i j : ℕ) (found : Option ℕ)
    → i ≤ j
    → j < i + left
    → get_or chan.sources j none ≡ some s
    → (k : ℕ) × (find_source (some s) chan left i found ≡ some k)
unfolding find_source
find_source-found s chan zero i j found from to at = absurd (omega arith)
find_source-found s chan (suc left) i j found from to at = elim (le_cases i j from) [
  | inl here ↦
      let e : same_source (some s) (get_or chan.sources i none) ≡ true =
        rw (here, at) (same_source_refl s) in
      rw e (find_source-keeps (some s) chan left (i + 1) i)
  | inr later ↦
      find_source-found s chan left (i + 1) j
        (if same_source (some s) (get_or chan.sources i none) then some i else found) later
        (omega arith) at
]

kept-chansrc_set :
    (c : Channel) (i : ℕ)
    → ((chansrc_set c i).sources ≡ c.sources)
      × ((chansrc_set c i).num_src ≡ c.num_src)
      × ((chansrc_set c i).name ≡ c.name)
      × ((chansrc_set c i).index ≡ c.index)
unfolding chansrc_set
kept-chansrc_set c i = (ground arith, ground arith, ground arith, ground arith)

source-chansrc_set :
    (c : Channel) (i : ℕ)
    → IsValid c
    → i < c.num_src
    → (chansrc_set c i).source ≡ get_or c.sources i none
source-chansrc_set c i v below =
    let (v', curr) = chansrc_set_lem c i v in
    let (sources, _, _, _) = kept-chansrc_set c i in
    let at : (chansrc_set c i).curr_src ≡ i = ground (arith, curr) in v'.url ∙ rw (at, sources) refl

-- What the two objects are after the meeting of an input with its channel.
pub record Adopted (cookie k : ℕ) (chan : Channel) (r : Restreamer) (chan' : Channel)
    (r' : Restreamer) : Type 0 where
  pub shared : (r'.input.channel ≡ chan') × (r'.owner ≡ new_list k)
  pub marked : (r'.input.cookie ≡ cookie) × (r'.input.name ≡ r.input.name)
  pub ending : (r'.input.dienow ≡ r.input.dienow) × (r'.input.freechannel ≡ r.input.freechannel)
  pub valid : IsValid chan'
  pub kept : (chan'.sources ≡ chan.sources) × (chan'.name ≡ chan.name) × (chan'.index ≡ chan.index)
  pub continues :
      (s : CString) (j : ℕ)
      → r.input.channel.source ≡ some s
      → j < chan.num_src
      → get_or chan.sources j none ≡ some s
      → (chan'.source ≡ some s) × (r'.input.reconnect ≡ r.input.reconnect)
  pub restarts :
      ((j : ℕ) → j < chan.num_src → get_or chan.sources j none ≢ r.input.channel.source)
      → (r'.input.reconnect ≡ true) × ((chansrc_next chan').curr_src ≡ 0)

module _ (cookie k : ℕ) (chan : Channel) (r : Restreamer) where
  abbrev scan : Option ℕ
  scan = find_source r.input.channel.source chan chan.num_src 0 none

  adopt_found :
      (i : ℕ)
      → scan ≡ some i
      → adopt cookie k chan r ≡ (
        chansrc_set chan i,
        record {
          input = record r.input { cookie = cookie; channel = chansrc_set chan i };
          owner = new_list k;
        },
      )
  unfolding adopt
  adopt_found i e = rw (e, adopt) refl

  adopt_missing :
      scan ≡ none
      → adopt cookie k chan r ≡ (
        chansrc_set chan (chan.num_src - 1),
        record {
          input = record r.input {
            cookie = cookie;
            channel = chansrc_set chan (chan.num_src - 1);
            reconnect = true;
          };
          owner = new_list k;
        },
      )
  unfolding adopt
  adopt_missing e = rw (e, adopt) refl

  -- An input whose source is still configured stays at it and is not interrupted; every other one
  -- reconnects, and then begins with the first source. Channel and input are one object afterwards, the
  -- input is marked, and sources, name and index are those of the file. Whether the input is told to end
  -- and whether it frees its channel stay as they were.
  pub adopt-Adopted :
      IsValid chan
      → 1 ≤ chan.num_src
      → Adopted cookie k chan r (adopt cookie k chan r).0 (adopt cookie k chan r).1
  adopt-Adopted v one = elim (Option-cases scan) [
    | inr (i, e) ↦
        let (below, at) : Found r.input.channel.source chan (some i) =
          subst (Found r.input.channel.source chan) e
            (find_source-Found r.input.channel.source chan chan.num_src 0 none (omega arith) tt) in
        let (sources, _, name, index) = kept-chansrc_set chan i in
        rw (adopt_found i e) (record {
          shared = (refl, refl);
          marked = (refl, refl);
          ending = (refl, refl);
          valid = (chansrc_set_lem chan i v).0;
          kept = (sources, name, index);
          continues = λ s j old to here. (source-chansrc_set chan i v below ∙ at ∙ old, refl);
          restarts = λ changed. absurd (changed i below at);
        })
    | inl e ↦
        let (sources, _, name, index) = kept-chansrc_set chan (chan.num_src - 1) in
        rw (adopt_missing e) (record {
          shared = (refl, refl);
          marked = (refl, refl);
          ending = (refl, refl);
          valid = (chansrc_set_lem chan (chan.num_src - 1) v).0;
          kept = (sources, name, index);
          continues = λ s j old to here.
              let (i, found) =
                find_source-found s chan chan.num_src 0 j none (omega arith) (omega arith) here in
              let found' : scan ≡ some i = rw old found in absurd (cc);
          restarts = λ changed. (refl, chansrc_next-chansrc_set chan v one);
        })
  ]
