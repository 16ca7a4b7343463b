-- ===== src/Config/Channels/Loaded.antt =====
-- What the channels of a file are: their sources, in order, and their identifiers.
use mptsd.Base.{
  ℕ, zero, suc, ◌+◌, ◌*◌, ◌≤◌, ◌<◌, ◌≡◌, inl, inr, refl, sym, subst, ◌∙◌, Bool, List, [], ◌∷◌, ◌++◌,
  append-nil, append_assoc, Option, none, some, CString, arith, length, length-append, get_or,
  get_elem?, replicate, if◌then◌else◌, ◌==◌, Bool-cases,
}
use mathlib.Core.Option.{some-injective}
use mptsd.Channel.{Channel, channel_new, chansrc_add, blank_channel}
use mptsd.Channel.Sources.{IsValid, chansrc_add-IsValid, chansrc_add_lem, channel_new_lem}
use mptsd.Url.{is_valid_url}
use mptsd.Config.{Ini}
use mptsd.Config.Channels.{Section, source_text, load_source, load_sources}

-- The valid one of a source, if it is.
unfoldable pub accepted : Option CString → List CString
accepted none = []
accepted (some source) = if is_valid_url source then source ∷ [] else []

-- The valid sources of a section, in order.
unfoldable pub urls_from : Ini → ℕ → ℕ → ℕ → List CString
urls_from ini i zero j = []
urls_from ini i (suc left) j = accepted (source_text ini i j) ++ urls_from ini i left (j + 1)

-- A channel that has the index, the name and the sources of its section.
pub record Holds (index : ℕ) (name : CString) (urls : List CString) (c : Channel) : Type 0 where
  pub valid : IsValid c
  pub count : c.num_src ≡ length urls
  pub listed : (k : ℕ) → get_or c.sources k none ≡ get_elem? urls k
  pub current : (c.curr_src ≡ 0) × (c.source ≡ get_elem? urls 0)
  pub index_kept : c.index ≡ index
  pub name_kept : c.name ≡ name
  pub base : c.base_pid ≡ 32 * index
  pub pmt : c.pmt_pid ≡ 32 * index

get_elem?-snoc :
    (xs : List CString) (x : CString) (k : ℕ)
    → get_elem? (xs ++ x ∷ []) k ≡ (if k == length xs then some x else get_elem? xs k)
get_elem?-snoc [] x zero = refl
get_elem?-snoc [] x (suc k) = ground arith
get_elem?-snoc (y ∷ xs) x zero = ground arith
get_elem?-snoc (y ∷ xs) x (suc k) = ground (arith, get_elem?-snoc xs x k)

get_elem?-beyond : (xs : List CString) → get_elem? xs (length xs) ≡ none
get_elem?-beyond [] = refl
get_elem?-beyond (x ∷ xs) = get_elem?-beyond xs

get_or-nones : (n k : ℕ) → ◌≡◌ {A = Option CString} (get_or (replicate n none) k none) none
get_or-nones zero k = refl
get_or-nones (suc n) zero = refl
get_or-nones (suc n) (suc k) = get_or-nones n k

kept-chansrc_add :
    (c : Channel) (s : CString)
    → ((chansrc_add c s).index ≡ c.index)
      × ((chansrc_add c s).name ≡ c.name)
      × ((chansrc_add c s).base_pid ≡ c.base_pid)
      × ((chansrc_add c s).pmt_pid ≡ c.pmt_pid)
unfolding chansrc_add
kept-chansrc_add c s = (ground arith, ground arith, ground arith, ground arith)

chansrc_add-Holds :
    (index : ℕ) (name : CString) (urls : List CString) (c : Channel) (s : CString)
    → Holds index name urls c
    → 1 ≤ length urls
    → length urls < 7
    → Holds index name (urls ++ s ∷ []) (chansrc_add c s)
chansrc_add-Holds index name urls c s h one room =
    let (_, f) = chansrc_add_lem c s h.valid in
    let (n, at, others, cur, url) = f (omega (arith, h.count)) in
    let (i, nm, b, p) = kept-chansrc_add c s in
    record {
      valid = chansrc_add-IsValid c s h.valid;
      count = omega (arith, n, h.count, length-append urls (s ∷ []));
      listed = λ k. ground (arith, at, others k, h.listed k, h.count, get_elem?-snoc urls s k);
      current =
          (cur ∙ h.current.0, ground (arith, url, h.current, h.count, get_elem?-snoc urls s 0));
      index_kept = i ∙ h.index_kept;
      name_kept = nm ∙ h.name_kept;
      base = b ∙ h.base;
      pmt = p ∙ h.pmt;
    }

one_listed :
    (s : CString) (k : ℕ) → get_or (some s ∷ replicate 7 none) k none ≡ get_elem? (s ∷ []) k
one_listed s zero = refl
one_listed s (suc k) = get_or-nones 7 k

-- A new channel has the one source.
channel_new-Holds :
    (service_id : ℕ) (radio : Bool) (id name : CString) (eit_mode : ℕ) (s : CString) (index lcn : ℕ)
    (visible : Bool)
    → 1 ≤ index
    → index < 256
    → (c : Channel) × (channel_new service_id radio id name eit_mode s index lcn visible ≡ some c)
      × Holds index name (s ∷ []) c
unfolding channel_new chansrc_add
channel_new-Holds service_id radio id name eit_mode s index lcn visible one small =
    let c = chansrc_add (blank_channel service_id radio id name eit_mode index lcn visible) s in
    let made : channel_new service_id radio id name eit_mode s index lcn visible ≡ some c =
      ground arith in
    let (v, _, _, _, _) =
      (channel_new_lem service_id radio id name eit_mode s index lcn visible).1 c made in
    (
      c,
      made,
      record {
        valid = v;
        count = refl;
        listed = one_listed s;
        current = (refl, refl);
        index_kept = refl;
        name_kept = refl;
        base = omega arith;
        pmt = omega arith;
      },
    )

-- The other entries of the section.
abbrev pub Settings : Section → Channel → Type 0
Settings s c =
    (c.service_id ≡ s.service_id)
    × (c.radio ≡ s.is_radio)
    × (c.id ≡ s.id)
    × (c.eit_mode ≡ s.eit_mode)
    × (c.lcn ≡ s.lcn)
    × (c.lcn_visible ≡ s.is_lcn_visible)

-- The hours of a channel; 0 and 0 for none.
abbrev pub Hours : Option (ℕ × ℕ) → Channel → Type 0
Hours none c = (c.worktime_start ≡ 0) × (c.worktime_end ≡ 0)
Hours (some (start, end)) c = (c.worktime_start ≡ start) × (c.worktime_end ≡ end)

chansrc_add-Settings :
    (s : Section) (c : Channel) (source : CString)
    → Settings s c
    → Settings s (chansrc_add c source)
unfolding chansrc_add
chansrc_add-Settings s c source (a, b, d, e, f, g) =
    (ground arith, ground arith, ground arith, ground arith, ground arith, ground arith)

chansrc_add-Hours :
    (c : Channel) (source : CString) → Hours none c → Hours none (chansrc_add c source)
unfolding chansrc_add
chansrc_add-Hours c source (a, b) = (ground arith, ground arith)

-- The sources that are read so far, and the channel.
abbrev pub Progress : Section → List CString → Option Channel → Type 0
Progress s urls none = urls ≡ []
Progress s urls (some c) =
    (1 ≤ length urls) × Holds s.index s.name urls c × Settings s c × Hours none c

new_channel :
    (s : Section) (source : CString)
    → 1 ≤ s.index
    → s.index < 256
    → (c : Channel) × (channel_new s.service_id s.is_radio s.id s.name s.eit_mode source s.index
          s.lcn s.is_lcn_visible
        ≡ some c)
      × Holds s.index s.name (source ∷ []) c
      × (Settings s c × Hours none c)
unfolding channel_new chansrc_add
new_channel s source one small =
    let c =
      chansrc_add
        (blank_channel s.service_id s.is_radio s.id s.name s.eit_mode s.index s.lcn
          s.is_lcn_visible)
        source in
    let (c', made, h) =
      channel_new-Holds s.service_id s.is_radio s.id s.name s.eit_mode source s.index s.lcn
        s.is_lcn_visible one small in
    let made' : channel_new s.service_id s.is_radio s.id s.name s.eit_mode source s.index s.lcn
          s.is_lcn_visible
        ≡ some c =
      ground arith in
    (
      c,
      made',
      subst (Holds s.index s.name (source ∷ [])) (some-injective c' c (sym made ∙ made')) h,
      ((refl, refl, refl, refl, refl, refl), (refl, refl)),
    )

load_source-Progress :
    (s : Section) (urls : List CString) (o : Option Channel) (source : Option CString)
    → 1 ≤ s.index
    → s.index < 256
    → length urls < 7
    → Progress s urls o
    → Progress s (urls ++ accepted source) (load_source s o source)
unfolding load_source accepted
load_source-Progress s urls o none one small room p = rw append-nil p
load_source-Progress s urls o (some source) one small room p =
    elim (Bool-cases (is_valid_url source)) [
      | inr bad ↦ rw (bad, append-nil) p
      | inl good ↦ rw good (by_channel o p)
    ]
  where
    by_channel :
        (o : Option Channel)
        → Progress s urls o
        → Progress s (urls ++ source ∷ []) (elim o [
          | none ↦
              channel_new s.service_id s.is_radio s.id s.name s.eit_mode source s.index s.lcn
                s.is_lcn_visible
          | some c ↦ some (chansrc_add c source)
        ])
    by_channel none p =
        let (c, made, h, kept) = new_channel s source one small in
        rw (p, made) (omega arith, h, kept.0, kept.1)
    by_channel (some c) (n, h, kept, never) = (
      omega (arith, length-append urls (source ∷ [])),
      chansrc_add-Holds s.index s.name urls c source h n room,
      chansrc_add-Settings s c source kept,
      chansrc_add-Hours c source never,
    )

length-accepted : (o : Option CString) → length (accepted o) ≤ 1
unfolding accepted
length-accepted none = omega arith
length-accepted (some source) = ground arith

pub load_sources-Progress :
    (ini : Ini) (s : Section) (left j : ℕ) (urls : List CString) (o : Option Channel)
    → 1 ≤ s.index
    → s.index < 256
    → length urls + left ≤ 7
    → Progress s urls o
    → Progress s (urls ++ urls_from ini s.index left j) (load_sources ini s left j o)
unfolding load_sources urls_from
load_sources-Progress ini s zero j urls o one small room p = rw append-nil p
load_sources-Progress ini s (suc left) j urls o one small room p =
    let source = source_text ini s.index j in
    subst (λ us. Progress s us (load_sources ini s left (j + 1) (load_source s o source)))
      (append_assoc urls (accepted source) _)
      (load_sources-Progress ini s left (j + 1) (urls ++ accepted source) (load_source s o source)
        one small (omega (arith, length-append urls (accepted source), length-accepted source))
        (load_source-Progress s urls o source one small (omega arith) p))
