-- ===== src/Cluster/Links.antt =====
-- The links of the clusters of a run: those of a cluster that was claimed are its members, and
-- those of the others are as they were.
use pothole_detection_server.Prelude.{
  ◌≡◌, ◌∙◌, refl, ap, subst, sym, false, List, [], ◌∷◌, ◌++◌, arith, Text, codes, same, same_refl,
  map, All,
}
use mathlib.Core.List.{append_assoc, append-nil}
use pothole_detection_server.Fusion.{filter, any_of}
use pothole_detection_server.Cluster.{ClusterLink, Computed, delete_links, insert_link}
use pothole_detection_server.Cluster.Lists.{HasNoRepeat, any_of-append}
use pothole_detection_server.Cluster.Job.{links_of, insert_links, rebuild_links}

-- No member of the one list is in the other.
abbrev AreApart : List Text → List Text → Type 0
AreApart ks = All (λ k. any_of k ks ≡ false)

apart_append :
    (ks : List Text) (k : Text) (js : List Text)
    → AreApart ks js
    → any_of k js ≡ false
    → AreApart (ks ++ (k ∷ [])) js
unfolding any_of
apart_append ks k [] h e = tt
apart_append ks k (j ∷ js) (hj, h) e =
    (ground (arith, any_of-append j ks (k ∷ [])), apart_append ks k js h (ground arith))

apart_nil : (ks : List Text) → AreApart [] ks
unfolding any_of
apart_nil [] = tt
apart_nil (k ∷ ks) = (refl, apart_nil ks)

module _ {F : Type 0} where
  -- The links of an id.
  abbrev pub links_at : Text → List (ClusterLink F) → List (ClusterLink F)
  links_at id = filter (λ l. same l.cluster_id id)

  abbrev members_in : List (ClusterLink F) → List Text
  members_in = map (λ l. l.member_id)

  -- All links are of one cluster and one kind.
  abbrev AreAt : Text → List (ClusterLink F) → Type 0
  AreAt id = All (λ l. (l.cluster_id ≡ id) × (l.kind ≡ codes "observation"))

  links_at-delete_links :
      (id : Text) (table : List (ClusterLink F)) → links_at id (delete_links id table) ≡ []
  unfolding delete_links filter
  links_at-delete_links id [] = refl
  links_at-delete_links id (l ∷ ls) = ground (arith, links_at-delete_links id ls)

  links_at-delete_links_other :
      (id k : Text) (table : List (ClusterLink F))
      → same id k ≡ false
      → links_at k (delete_links id table) ≡ links_at k table
  unfolding delete_links filter
  links_at-delete_links_other id k [] e = refl
  links_at-delete_links_other id k (l ∷ ls) e =
      ground (arith, links_at-delete_links_other id k ls e)

  links_at-insert_link :
      (l : ClusterLink F) (table : List (ClusterLink F))
      → links_at l.cluster_id (insert_link l table) ≡ insert_link l (links_at l.cluster_id table)
  unfolding insert_link filter
  links_at-insert_link l [] = ground (arith, same_refl l.cluster_id)
  links_at-insert_link l (m ∷ ms) = ground (arith, links_at-insert_link l ms)

  links_at-insert_link_other :
      (l : ClusterLink F) (k : Text) (table : List (ClusterLink F))
      → same l.cluster_id k ≡ false
      → links_at k (insert_link l table) ≡ links_at k table
  unfolding insert_link filter
  links_at-insert_link_other l k [] e = ground arith
  links_at-insert_link_other l k (m ∷ ms) e = ground (arith, links_at-insert_link_other l k ms e)

  links_at-insert_links :
      (id : Text) (ls table : List (ClusterLink F))
      → AreAt id ls
      → links_at id (insert_links ls table) ≡ insert_links ls (links_at id table)
  unfolding insert_links
  links_at-insert_links id [] table h = refl
  links_at-insert_links id (l ∷ ls) table ((e, _), h) =
      links_at-insert_links id ls (insert_link l table) h
      ∙ ap (insert_links ls) (
          subst (λ k. links_at k (insert_link l table) ≡ insert_link l (links_at k table)) e
            (links_at-insert_link l table))

  links_at-insert_links_other :
      (id k : Text) (ls table : List (ClusterLink F))
      → AreAt id ls
      → same id k ≡ false
      → links_at k (insert_links ls table) ≡ links_at k table
  unfolding insert_links
  links_at-insert_links_other id k [] table h e = refl
  links_at-insert_links_other id k (l ∷ ls) table ((el, _), h) e =
      links_at-insert_links_other id k ls (insert_link l table) h e
      ∙ links_at-insert_link_other l k table (subst (λ j. same j k ≡ false) (sym el) e)

  insert_link_new :
      (l : ClusterLink F) (acc : List (ClusterLink F))
      → any_of l.member_id (members_in acc) ≡ false
      → insert_link l acc ≡ acc ++ (l ∷ [])
  unfolding insert_link any_of
  insert_link_new l [] e = refl
  insert_link_new l (m ∷ ms) e = ground (arith, insert_link_new l ms)

  members_in-append :
      (xs ys : List (ClusterLink F)) → members_in (xs ++ ys) ≡ members_in xs ++ members_in ys
  members_in-append [] ys = refl
  members_in-append (x ∷ xs) ys = ground (arith, members_in-append xs ys)

  insert_links_new :
      (ls acc : List (ClusterLink F))
      → HasNoRepeat (members_in ls)
      → AreApart (members_in acc) (members_in ls)
      → insert_links ls acc ≡ acc ++ ls
  unfolding insert_links
  insert_links_new [] acc h apart = sym (append-nil acc)
  insert_links_new (l ∷ ls) acc (hl, h) (al, apart) =
      rw (insert_links, insert_link_new l acc al)
        (insert_links_new ls (acc ++ (l ∷ [])) h (
            rw (members_in-append acc (l ∷ []))
              (apart_append (members_in acc) l.member_id (members_in ls) apart hl))
          ∙ append_assoc acc (l ∷ []) ls)

  links_of-AreAt : (id : Text) (ms : List Text) (cs : List F) → AreAt id (links_of id ms cs)
  unfolding links_of
  links_of-AreAt id [] cs = tt
  links_of-AreAt id (m ∷ ms) [] = tt
  links_of-AreAt id (m ∷ ms) (c ∷ cs) = ((refl, refl), links_of-AreAt id ms cs)

  members_in-links_of :
      (id : Text) (ms : List Text) (cs : List F) (k : Text)
      → any_of k ms ≡ false
      → any_of k (members_in (links_of id ms cs)) ≡ false
  unfolding links_of any_of
  members_in-links_of id [] cs k e = refl
  members_in-links_of id (m ∷ ms) [] k e = refl
  members_in-links_of id (m ∷ ms) (c ∷ cs) k e = ground (arith, members_in-links_of id ms cs k)

  links_of-HasNoRepeat :
      (id : Text) (ms : List Text) (cs : List F)
      → HasNoRepeat ms
      → HasNoRepeat (members_in (links_of id ms cs))
  unfolding links_of
  links_of-HasNoRepeat id [] cs h = tt
  links_of-HasNoRepeat id (m ∷ ms) [] h = tt
  links_of-HasNoRepeat id (m ∷ ms) (c ∷ cs) (hm, h) =
      (members_in-links_of id ms cs m hm, links_of-HasNoRepeat id ms cs h)

  pub links_at-rebuild_links :
      (id : Text) (c : Computed F) (table : List (ClusterLink F))
      → HasNoRepeat c.member_ids
      → links_at id (rebuild_links id c table) ≡ links_of id c.member_ids c.member_confidences
  unfolding rebuild_links
  links_at-rebuild_links id c table h =
      let ls = links_of id c.member_ids c.member_confidences in
      links_at-insert_links id ls (delete_links id table)
        (links_of-AreAt id c.member_ids c.member_confidences)
      ∙ ap (insert_links ls) (links_at-delete_links id table)
      ∙ insert_links_new ls [] (links_of-HasNoRepeat id c.member_ids c.member_confidences h)
          (apart_nil (members_in ls))

  pub links_at-rebuild_links_other :
      (id k : Text) (c : Computed F) (table : List (ClusterLink F))
      → same id k ≡ false
      → links_at k (rebuild_links id c table) ≡ links_at k table
  unfolding rebuild_links
  links_at-rebuild_links_other id k c table e =
      links_at-insert_links_other id k (links_of id c.member_ids c.member_confidences)
        (delete_links id table) (links_of-AreAt id c.member_ids c.member_confidences) e
      ∙ links_at-delete_links_other id k table e
