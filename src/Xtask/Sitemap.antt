-- ===== src/Xtask/Sitemap.antt =====
-- tooling/xtask/src/discovery.rs: the files that tell crawlers about a release.
use Prim.Native.String
use rust_v.Prelude.{String, Option, none, some, List, [], ◌∷◌, if◌then◌else◌}
use rust_v.Prelude.Text.{str_eq}
use rust_v.Xtask.Encode.{xml_escape}
use rust_v.Xtask.Origin.{DiscoveryConfig}

abbrev page_url : DiscoveryConfig → String → String
page_url config route =
    if str_eq route "/" then String.◌++◌ config.site_url "/" else String.◌++◌ config.site_url route

unfoldable pub sitemap_entries : DiscoveryConfig → List String → String
sitemap_entries config [] = "</urlset>\n"
sitemap_entries config (route ∷ routes) = String.◌++◌ "  <url><loc>" (
    String.◌++◌ (xml_escape (page_url config route)) (
      String.◌++◌ "</loc><lastmod>" (
        String.◌++◌ config.last_modified
          (String.◌++◌ "</lastmod></url>\n" (sitemap_entries config routes)))))

robots : DiscoveryConfig → String
robots config =
    String.◌++◌ "User-agent: *\nAllow: /\n\nSitemap: "
      (String.◌++◌ config.site_url "/sitemap.xml\n# Discovery updates: IndexNow\n")

sitemap : DiscoveryConfig → List String → String
unfolding sitemap_entries
sitemap config routes =
    String.◌++◌
      "<?xml version=\"1.0\" encoding=\"UTF-8\"?>\n<urlset xmlns=\"http://www.sitemaps.org/schemas/sitemap/0.9\">\n"
      (sitemap_entries config routes)

llms : DiscoveryConfig → String
llms config = String.◌++◌ "# " (
    String.◌++◌ config.product_name (
      String.◌++◌ "\n\n> " (
        String.◌++◌ config.product_summary (
          String.◌++◌ "\n\n- Public site: " (
            String.◌++◌ config.site_url (
              String.◌++◌ "/\n- Product app: " (
                String.◌++◌ config.app_url
                  "/\n- Language and market: English (United Kingdom)\n- Evidence policy: treat product claims as descriptions, not independent proof of outcomes.\n")))))))

abbrev google_record : Option String → List (String × String)
google_record none = []
google_record (some file) = (file, String.◌++◌ "google-site-verification: " file) ∷ []

-- The file that shows who owns the site is named for its key, which it holds.
unfoldable pub discovery_files :
    (String → String) → DiscoveryConfig → List String → List (String × String)
unfolding robots sitemap llms
discovery_files short_hash config routes =
    ("robots.txt", robots config)
    ∷ ("sitemap.xml", sitemap config routes)
    ∷ ("llms.txt", llms config)
    ∷ (String.◌++◌ (short_hash config.site_url) ".txt", short_hash config.site_url)
    ∷ google_record config.google_verification_file
