-- ===== src/Tbd/Tracker.antt =====
-- core/src/tbd/byte_tracker.hpp and byte_tracker.cpp: the state of `ByteTracker`, `coast` and `update`.
pub mod Detections
pub mod Ids
pub mod Indexed
pub mod Lifecycle
pub mod Motion
pub mod Partition
pub mod Tests
use custos_tracker.Prelude.{
  ℕ, zero, suc, pos, ◌+◌, Bool, true, false, not, ◌&&◌, ◌||◌, ◌==◌, if◌then◌else◌, ltb_ℤ, leb_ℤ, ℤ,
  List, [], ◌∷◌, ◌++◌, map, keep, elem, get_or, get_elem?, set, replicate, length, is_empty, modify,
  positions, unflagged, Option, none, some,
}
use custos_tracker.Float.{Float, ◌⊕◌, ◌⊖◌, ◌⊗◌, ◌⊘◌, ◌<?◌, ◌≤?◌, one, nought, fmax}
use custos_tracker.Types.{
  BBox, Detection, Track, TrackState, tentative, confirmed, lost, is_tentative, is_confirmed,
  is_lost,
}
use custos_tracker.Geometry.Boxes.{Affine23, identity}
use custos_tracker.Tbd.Config.{AssocConfig, Filter}
use custos_tracker.Tbd.Assoc.{Solver, Match, match_by_iou, remove_matched, no_detection}

pub record STrack (F K : Type 0) : Type 0 where
  pub kf : K
  pub id : ℕ
  pub state : TrackState
  pub hits : ℕ
  pub age : ℕ
  pub time_since_update : ℕ
  pub score : F
  pub class_id : ℤ
  pub embedding : List F

pub record ByteTracker (F K : Type 0) : Type 0 where
  pub cfg : AssocConfig F
  pub tracks : List (STrack F K)
  pub next_id : ℕ
  pub coasted_dt : F
  pub eff_dt : F

-- What the three stages find.
pub record Stages : Type 0 where
  pub matches : List Match
  pub unmatched_mature : List ℕ
  pub unmatched_tentative : List ℕ
  pub unmatched_high : List ℕ

unfoldable pub create : {F K : Type 0} ⦃f : Float F⦄ → AssocConfig F → ByteTracker F K
create cfg = record { cfg = cfg; tracks = []; next_id = 1; coasted_dt = nought; eff_dt = one }

-- The state of a matched track with so many hits.
unfoldable pub promote : ℤ → ℕ → TrackState → TrackState
promote n_init hits tentative = if leb_ℤ n_init (pos hits) then confirmed else tentative
promote n_init hits lost = confirmed
promote n_init hits other = other

module _ {F : Type 0} ⦃f : Float F⦄ where
  open f use {sqrt}

  -- The blend of two descriptors and the square of its norm, item by item.
  blend : F → List F → List F → List F
  blend ema [] ys = []
  blend ema (x ∷ xs) [] = x ∷ xs
  blend ema (x ∷ xs) (y ∷ ys) = (ema ⊗ x ⊕ (one ⊖ ema) ⊗ y) ∷ blend ema xs ys

  square_sum : F → List F → F
  square_sum acc [] = acc
  square_sum acc (x ∷ xs) = square_sum (acc ⊕ x ⊗ x) xs

  pub merge_embedding : F → List F → List F → List F
  unfolding blend square_sum
  merge_embedding ema old new =
      let mixed = blend ema old new in
      let norm = sqrt (square_sum nought mixed) in
      let scaled = map (λ x. x ⊘ norm) mixed in
      if is_empty new
      then old
      else if not (length old == length new)
      then new
      else if nought <? norm
      then scaled
      else mixed

module _ {F K : Type 0} ⦃f : Float F⦄ (filter : Filter F K) where
  open filter use {initiate, predict, apply_affine, correct, seed_velocity, box}

  pub mark_matched : AssocConfig F → F → Detection F → STrack F K → STrack F K
  unfolding merge_embedding promote
  mark_matched cfg eff_dt det t =
      let seeded =
        if cfg.velocity_seed && t.hits == 1 then seed_velocity det.box eff_dt t.kf else t.kf in
      record t {
        kf = correct det.box (if cfg.nsa then one ⊖ det.score else one) seeded;
        embedding = merge_embedding cfg.embedding_ema t.embedding det.embedding;
        time_since_update = 0;
        hits = t.hits + 1;
        score = det.score;
        class_id = det.class_id;
        state = promote cfg.n_init (t.hits + 1) t.state;
      }

  unfoldable pub report : STrack F K → Track F
  report t = record {
    id = t.id;
    box = box t.kf;
    score = t.score;
    class_id = t.class_id;
    state = t.state;
    age = t.age;
    hits = t.hits;
  }

  pub move : F → Affine23 F → K → K
  move dt warp k = let k' = predict dt k in if not (identity warp) then apply_affine warp k' else k'

  unfoldable pub coast : F → Affine23 F → ByteTracker F K → List (Track F) × ByteTracker F K
  unfolding move report
  coast dt warp s =
      let tracks =
        map (λ (t : STrack F K). record t { kf = move dt warp t.kf; age = t.age + 1 }) s.tracks in
      (map report tracks, record s { tracks = tracks; coasted_dt = s.coasted_dt ⊕ dt })

  -- The prediction at the head of `update`.
  pub advance : F → Affine23 F → STrack F K → STrack F K
  unfolding move
  advance dt warp t = record t {
    kf = move dt warp t.kf;
    age = t.age + 1;
    time_since_update = t.time_since_update + 1;
  }

  -- Matched as recently as the previous frame.
  abbrev pub is_recent : Option (STrack F K) → Bool
  is_recent none = false
  is_recent (some t) = is_confirmed t.state && t.time_since_update == 1

  abbrev pub stage1_gate : AssocConfig F → F
  stage1_gate cfg = one ⊖ cfg.match_thresh_high

  abbrev pub tentative_gate : AssocConfig F → F → F
  tentative_gate cfg coasted =
      fmax cfg.tentative_gate_floor
        (cfg.tentative_match_thresh ⊖ cfg.tentative_relax_per_coast ⊗ coasted)

  -- The three stages, on tracks that have been predicted.
  pub associate : Solver F → AssocConfig F → F → List (Detection F) → List (STrack F K) → Stages
  associate solver cfg coasted dets tracks =
      let predicted = map (λ (t : STrack F K). box t.kf) tracks in
      let high = positions (λ (d : Detection F). cfg.track_thresh ≤? d.score) 0 dets in
      let low = positions (λ (d : Detection F). not (cfg.track_thresh ≤? d.score)) 0 dets in
      let mature = positions (λ (t : STrack F K). not (is_tentative t.state)) 0 tracks in
      let young = positions (λ (t : STrack F K). is_tentative t.state) 0 tracks in
      let weight = cfg.appearance_weight in
      let embs =
        if nought <? weight then some (map (λ (t : STrack F K). t.embedding) tracks) else none in
      let matches1 = match_by_iou solver predicted mature dets high (stage1_gate cfg) embs weight in
      let mature1 = remove_matched mature matches1 true in
      let high1 = remove_matched high matches1 false in
      let recent = keep (λ i. is_recent (get_elem? tracks i)) mature1 in
      let low_matches =
        match_by_iou solver predicted recent dets low cfg.match_thresh_low none nought in
      let matches2 = if cfg.use_byte then low_matches else [] in
      let mature2 = if cfg.use_byte then remove_matched mature1 low_matches true else mature1 in
      let matches3 =
        match_by_iou solver predicted young dets high1 (tentative_gate cfg coasted) none nought in
      record {
        matches = matches1 ++ matches2 ++ matches3;
        unmatched_mature = mature2;
        unmatched_tentative = remove_matched young matches3 true;
        unmatched_high = remove_matched high1 matches3 false;
      }

  pub apply_matches :
      AssocConfig F → F → List (Detection F) → List Match → List (STrack F K) → List (STrack F K)
  unfolding mark_matched
  apply_matches cfg eff dets [] tracks = tracks
  apply_matches cfg eff dets ((ti, dj) ∷ ms) tracks =
      apply_matches cfg eff dets ms
        (modify ti (mark_matched cfg eff (get_or dets dj no_detection)) tracks)

  -- More frames without a match than the limit.
  abbrev pub is_stale : ℤ → Option (STrack F K) → Bool
  is_stale limit none = false
  is_stale limit (some t) = ltb_ℤ limit (pos t.time_since_update)

  -- Sets the flags of the stale tracks among the indices.
  pub flag_stale : ℤ → List (STrack F K) → List ℕ → List Bool → List Bool
  flag_stale limit tracks [] removed = removed
  flag_stale limit tracks (i ∷ is) removed =
      flag_stale limit tracks is
        (if is_stale limit (get_elem? tracks i) then set removed i true else removed)

  abbrev pub demote : STrack F K → STrack F K
  demote t = if is_confirmed t.state then record t { state = lost } else t

  pub demote_all : List ℕ → List (STrack F K) → List (STrack F K)
  demote_all [] tracks = tracks
  demote_all (i ∷ is) tracks = demote_all is (modify i demote tracks)

  unfoldable pub newborn : AssocConfig F → ℕ → Detection F → STrack F K
  newborn cfg id det = record {
    kf = initiate det.box;
    id = id;
    state = if leb_ℤ cfg.n_init (pos 1) then confirmed else tentative;
    hits = 1;
    age = 1;
    time_since_update = 0;
    score = det.score;
    class_id = det.class_id;
    embedding = [];
  }

  -- The tracks that the confident unmatched detections give birth to, and the next free id.
  pub spawn : AssocConfig F → List (Detection F) → ℕ → List ℕ → List (STrack F K) × ℕ
  unfolding newborn
  spawn cfg dets next [] = ([], next)
  spawn cfg dets next (dj ∷ djs) =
      let det = get_or dets dj no_detection in
      let skipped = spawn cfg dets next djs in
      let (born, next') = spawn cfg dets (suc next) djs in
      if det.score <? cfg.new_track_thresh then skipped else (newborn cfg next det ∷ born, next')

  -- `update` after the prediction. The loop over the mature tracks that sets states and flags is
  -- `demote_all` with `flag_stale`, since neither reads what the other writes; the flag of a newborn is
  -- never set.
  pub resolve :
      Solver F
      → AssocConfig F
      → F
      → F
      → List (Detection F)
      → ℕ
      → List (STrack F K)
      → List (STrack F K) × ℕ
  unfolding associate apply_matches flag_stale demote_all spawn
  resolve solver cfg coasted eff dets next tracks =
      let st = associate solver cfg coasted dets tracks in
      let marked = apply_matches cfg eff dets st.matches tracks in
      let flags =
        flag_stale cfg.tentative_patience marked st.unmatched_tentative
          (replicate (length marked) false) in
      let removed = flag_stale cfg.max_age marked st.unmatched_mature flags in
      let (born, next') = spawn cfg dets next st.unmatched_high in
      (unflagged removed (demote_all st.unmatched_mature marked ++ born), next')

  unfoldable pub update :
      Solver F
      → List (Detection F)
      → F
      → Affine23 F
      → ByteTracker F K
      → List (Track F) × ByteTracker F K
  unfolding advance resolve report
  update solver dets dt warp s =
      let eff = s.coasted_dt ⊕ dt in
      let (tracks, next) =
        resolve solver s.cfg s.coasted_dt eff dets s.next_id (map (advance dt warp) s.tracks) in
      (
        map report tracks,
        record s { tracks = tracks; next_id = next; coasted_dt = nought; eff_dt = eff },
      )
